-- ===== src/Smb2/Response.antt =====
-- internal/smb2/response.go: the responses, one file each.
pub mod Logoff
pub mod TreeDisconnect
pub mod Flush
pub mod SetInfo
pub mod Lock
pub mod Echo
pub mod TreeConnect
pub mod Close
pub mod Create
pub mod Negotiate
pub mod SessionSetup
pub mod Read
pub mod Write
pub mod Ioctl
pub mod QueryDirectory
pub mod QueryInfo
pub mod ChangeNotify
pub mod Error
pub mod Messages
