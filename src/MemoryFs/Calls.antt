-- ===== src/MemoryFs/Calls.antt =====
-- The calls that a server makes of the file system, and their runs one after the other.
use smb_mem_lib.Prelude.{ℕ, Option, List, [], ◌∷◌, Bytes}
use smb_mem_lib.Vfs.{OperationContext}
use smb_mem_lib.Vfs.Attributes.{Attributes}
use smb_mem_lib.MemoryFs.Types.{MemoryFs, Env}
use smb_mem_lib.MemoryFs.Ghost.Upkeep.{cleanup_ghost_files}
use smb_mem_lib.MemoryFs.Handles
use smb_mem_lib.MemoryFs.Content
use smb_mem_lib.MemoryFs.Names
use smb_mem_lib.MemoryFs.Extras

-- The methods of vfs.VFSWithContext that take a handle or a path, and a tick of the cleanup.
pub data Call : Type 0 where
  get_attr : ℕ → Call
  set_attr : ℕ → Attributes → Call
  open_file : Bytes → ℕ → ℕ → Call
  close : ℕ → Call
  lookup : ℕ → Bytes → Call
  mkdir : Bytes → ℕ → Call
  read : ℕ → ℕ → ℕ → Call
  write : ℕ → Bytes → ℕ → Call
  open_dir : Bytes → Call
  read_dir : ℕ → ℕ → Call
  readlink : ℕ → Call
  unlink : ℕ → Call
  truncate : ℕ → ℕ → Call
  rename : ℕ → Bytes → ℕ → Call
  make_symlink : ℕ → Bytes → Call
  list_xattr : ℕ → Call
  get_xattr : ℕ → Bytes → Option ℕ → Call
  set_xattr : ℕ → Bytes → Option Bytes → Call
  remove_xattr : ℕ → Bytes → Call
  set_operation_context : Option OperationContext → Call
  tick : Call

-- The state after a call, whatever its result.
unfoldable pub run : Env → Call → MemoryFs → MemoryFs
run env (get_attr h) fs = (Handles.get_attr h fs).1
run env (set_attr h a) fs = (Handles.set_attr h a fs).1
run env (open_file p flags mode) fs = (Handles.open_file env p flags mode fs).1
run env (close h) fs = (Handles.close env h fs).1
run env (lookup h name) fs = (Handles.lookup h name fs).1
run env (mkdir p mode) fs = (Names.mkdir env p mode fs).1
run env (read h len offset) fs = (Content.read h len offset fs).1
run env (write h buf offset) fs = (Content.write env h buf offset fs).1
run env (open_dir p) fs = (Handles.open_dir env p fs).1
run env (read_dir h max_entries) fs = (Extras.read_dir h max_entries fs).1
run env (readlink h) fs = (Extras.readlink h fs).1
run env (unlink h) fs = (Names.unlink h fs).1
run env (truncate h size) fs = (Content.truncate env h size fs).1
run env (rename h p flags) fs = (Names.rename env h p flags fs).1
run env (make_symlink h source) fs = (Extras.make_symlink h source fs).1
run env (list_xattr h) fs = (Extras.list_xattr h fs).1
run env (get_xattr h key buffer) fs = (Extras.get_xattr h key buffer fs).1
run env (set_xattr h key value) fs = (Extras.set_xattr h key value fs).1
run env (remove_xattr h key) fs = (Extras.remove_xattr h key fs).1
run env (set_operation_context ctx) fs = Extras.set_operation_context env ctx fs
run env tick fs = cleanup_ghost_files env.now fs

-- A history: each call with what it gets from outside, the first one first.
unfoldable pub run_all : List (Env × Call) → MemoryFs → MemoryFs
unfolding run
run_all [] fs = fs
run_all ((env, call) ∷ calls) fs = run_all calls (run env call fs)
