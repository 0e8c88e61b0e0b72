-- ===== src/MemoryFs.antt =====
-- memoryshare/memory_fs.go: the in-memory file system with its honeypot mode. The state is in
-- `Types`, the operations are in the children named for them, and the others hold proofs.
pub mod Types
pub mod Paths
pub mod Ghost
pub mod Handles
pub mod Content
pub mod Names
pub mod Extras
pub mod Calls
pub mod Honeypot
pub mod Sound
pub mod Reopen
pub mod Tests
