-- ===== src/MemoryFs/Tests.antt =====
-- A small tree for the tests: the root with the file /a, open under the handle 9, and the directory
-- /d, open under the handle 8.
pub mod Honeypots
pub mod Trees
use smb_mem_lib.Prelude.{ℕ, true, false, none, some, [], ◌∷◌, Bytes, ◌==◌}
use smb_mem_lib.Vfs.{OperationContext}
use smb_mem_lib.MemoryFs.Types.{
  MemoryNode, OpenMemoryFile, MemoryFs, Env, node_at, new_memory_fs, update,
}

abbrev pub env : Env
env = record { now = 5; random = 77; goroutine = 1 }

abbrev pub later_env : Env
later_env = record { now = 6; random = 78; goroutine = 2 }

abbrev pub ctx : OperationContext
ctx = record { remote_addr = b'r' ∷ []; local_addr = b'l' ∷ []; session_id = 12; username = [] }

abbrev pub file_a : MemoryNode
file_a = record (node_at (b'a' ∷ []) false (some 1) 2 0o644 0) { content = 10 ∷ 20 ∷ []; size = 2 }

abbrev pub directory_d : MemoryNode
directory_d = node_at (b'd' ∷ []) true (some 1) 3 0o755 0

abbrev pub top : MemoryNode
top = record (node_at (b'/' ∷ []) true none 1 0o755 0) {
  children = some ((b'a' ∷ [], 2) ∷ (b'd' ∷ [], 3) ∷ []);
}

abbrev pub open_a : OpenMemoryFile
open_a = record { node = 2; handle = 9; path = b'/' ∷ b'a' ∷ []; is_dir = false; dir_pos = 0 }

abbrev pub open_d : OpenMemoryFile
open_d = record { node = 3; handle = 8; path = b'/' ∷ b'd' ∷ []; is_dir = true; dir_pos = 0 }

abbrev pub tree : MemoryFs
unfolding new_memory_fs
tree = record (new_memory_fs 0) {
  nodes = update (update (update (λ p. file_a) 3 directory_d) 2 file_a) 1 top;
  next_node = 4;
  next_inode = 4;
  open_files = (9, open_a) ∷ (8, open_d) ∷ [];
  context_map = (1, ctx) ∷ [];
}

abbrev pub honeypot : MemoryFs
honeypot = record tree { discard_writes = true }

-- The honeypot with the file /x, which is not in the tree, open under the handle 7.
abbrev pub open_x : OpenMemoryFile
open_x = record { node = 4; handle = 7; path = b'/' ∷ b'x' ∷ []; is_dir = false; dir_pos = 0 }

abbrev pub trapped : MemoryFs
trapped = record honeypot {
  open_files = (7, open_x) ∷ (9, open_a) ∷ (8, open_d) ∷ [];
  next_node = 5;
}
