-- ===== src/MemoryFs/Sound.antt =====
-- memoryshare/memory_fs.go outside the honeypot mode: states whose contents are as long as the sizes.
pub mod Trees
pub mod Methods
pub mod Others
pub mod Runs
use smb_mem_lib.Prelude.{ℕ, ◌≡◌, false, length}
use smb_mem_lib.MemoryFs.Types.{MemoryNode, MemoryFs}

abbrev pub IsBacked : MemoryNode → Type 0
IsBacked n = length n.content ≡ n.size

pub record IsSound (fs : MemoryFs) : Type 0 where
  pub kept : fs.discard_writes ≡ false
  pub backed : (q : ℕ) → IsBacked (fs.nodes q)
