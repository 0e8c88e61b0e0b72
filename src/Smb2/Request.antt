-- ===== src/Smb2/Request.antt =====
-- internal/smb2/request.go: the requests of a client.
pub mod Close
pub mod Flush
pub mod SessionSetup
pub mod TreeConnect
pub mod QueryDirectory
pub mod Logoff
pub mod Cancel
pub mod TreeDisconnect
pub mod Ioctl
pub mod SetInfo
pub mod QueryInfo
pub mod Read
pub mod Write
pub mod Create
pub mod Negotiate
pub mod ChangeNotify
pub mod Messages
