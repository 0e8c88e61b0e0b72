-- ===== src/MemoryFs/Types.antt =====
-- The state of memoryshare/memory_fs.go. A pointer to a MemoryNode is a number, and `nodes` is the
-- heap. The locks are not modelled, as one operation runs at a time, but for the lock of a node that
-- nodeToAttributes waits for, which its caller may hold. Times are nanoseconds.
use smb_mem_lib.Prelude.{
  ℕ, ◌+◌, ◌*◌, Bool, true, false, Option, none, some, [], ◌∷◌, Bytes, ◌==◌, if◌then◌else◌,
}
use smb_mem_lib.Prelude.Assoc.{Assoc}
use smb_mem_lib.Vfs.{OperationContext, WriteCallback, CreateCallback, RenameCallback}

-- The errors, one for each text; `rejected` carries the error that a callback returned.
pub data Error : Type 0 where
  file_at_root component_not_directory path_not_found invalid_handle : Error
  directory_exists cannot_read_directory eof cannot_write_to_directory : Error
  not_a_directory not_a_symlink delete_root cannot_truncate_directory : Error
  destination_exists no_hard_links attribute_not_found : Error
  rejected : ℕ → Error

-- `panic` is a Go panic; `deadlock` is a wait for a lock that the waiting operation itself holds.
pub data Result (A : Type 0) : Type 0 where
  ok : A → Result A
  err : Error → Result A
  panic : Result A
  deadlock : Result A

-- `content` is what lies below the length of the slice, `spare` what lies between its length and
-- its capacity. `children` is none for a nil map. `locked` is the write lock of `mu`.
pub record MemoryNode : Type 0 where
  pub name : Bytes
  pub is_dir : Bool
  pub content : Bytes
  pub spare : Bytes
  pub size : ℕ
  pub children : Option (Assoc Bytes ℕ)
  pub parent : Option ℕ
  pub inode : ℕ
  pub mode : ℕ
  pub uid : ℕ
  pub gid : ℕ
  pub atime : ℕ
  pub mtime : ℕ
  pub ctime : ℕ
  pub btime : ℕ
  pub xattrs : Assoc Bytes Bytes
  pub symlink_to : Bytes
  pub is_symlink : Bool
  pub locked : Bool

-- An OpenMemoryFile is reached through its handle alone.
pub record OpenMemoryFile : Type 0 where
  pub node : ℕ
  pub handle : ℕ
  pub path : Bytes
  pub is_dir : Bool
  pub dir_pos : ℕ

pub record GhostFile : Type 0 where
  pub node : ℕ
  pub path : Bytes
  pub session_id : ℕ
  pub size : ℕ
  pub last_access : ℕ

-- The two maps of sizes and the limits hold int64 patterns.
pub record MemoryFs : Type 0 where
  pub root : ℕ
  pub nodes : ℕ → MemoryNode
  pub next_node : ℕ
  pub open_files : Assoc ℕ OpenMemoryFile
  pub next_inode : ℕ
  pub write_callback : Option WriteCallback
  pub create_callback : Option CreateCallback
  pub rename_callback : Option RenameCallback
  pub context_map : Assoc ℕ OperationContext
  pub discard_writes : Bool
  pub ghost_files : Assoc Bytes GhostFile
  pub cleanup_closed : Bool
  pub ghost_memory_usage : Assoc ℕ ℕ
  pub ghost_memory_global : ℕ
  pub max_ghost_files_per_session : ℕ
  pub max_ghost_memory_per_session : ℕ
  pub max_ghost_memory_global : ℕ

-- What an operation gets from outside: the time, the random number that may become a handle, and
-- the goroutine that it runs on.
pub record Env : Type 0 where
  pub now : ℕ
  pub random : ℕ
  pub goroutine : ℕ

-- A method: its result, and the state that it leaves, also where it fails.
abbrev pub Op : Type 0 → Type 0
Op A = MemoryFs → Result A × MemoryFs

abbrev pub continue : {A B : Type 0} → Result A → (A → Op B) → Op B
continue (ok a) f s = f a s
continue (err e) f s = (err e, s)
continue panic f s = (panic, s)
continue deadlock f s = (deadlock, s)

infixl 5 ◌>>=◌ ◌>>◌
abbrev pub ◌>>=◌ : {A B : Type 0} → Op A → (A → Op B) → Op B
◌>>=◌ m f s = let (r, s') = m s in continue r f s'

abbrev pub ◌>>◌ : {A B : Type 0} → Op A → Op B → Op B
m >> n = m >>= λ _. n

abbrev pub return : {A : Type 0} → A → Op A
return a s = (ok a, s)

abbrev pub fail : {A : Type 0} → Error → Op A
fail e s = (err e, s)

abbrev pub crash : {A : Type 0} → Op A
crash s = (panic, s)

abbrev pub gets : {A : Type 0} → (MemoryFs → A) → Op A
gets f s = (ok (f s), s)

abbrev pub modify : (MemoryFs → MemoryFs) → Op (Unit {0})
modify f s = (ok tt, f s)

abbrev pub found : {A : Type 0} → Error → Option A → Op A
found e none s = (err e, s)
found e (some a) s = (ok a, s)

-- The heap.
abbrev pub update : {A : Type 0} → (ℕ → A) → ℕ → A → ℕ → A
update f p a q = if p == q then a else f q

abbrev pub set_node : ℕ → MemoryNode → MemoryFs → MemoryFs
set_node p n s = record s { nodes = update s.nodes p n }

-- &MemoryNode{…}
abbrev pub new_node : MemoryNode → Op ℕ
new_node n s =
    (ok s.next_node, record s { nodes = update s.nodes s.next_node n; next_node = s.next_node + 1 })

-- The fields that a literal &MemoryNode{…} of the code leaves out are zero; a file has no map of
-- children.
abbrev pub node_at : Bytes → Bool → Option ℕ → ℕ → ℕ → ℕ → MemoryNode
node_at name is_dir parent inode mode now = record {
  name = name;
  is_dir = is_dir;
  content = [];
  spare = [];
  size = 0;
  children = if is_dir then some [] else none;
  parent = parent;
  inode = inode;
  mode = mode;
  uid = 0;
  gid = 0;
  atime = now;
  mtime = now;
  ctime = now;
  btime = now;
  xattrs = [];
  symlink_to = [];
  is_symlink = false;
  locked = false;
}

-- NewMemoryFS. Its goroutine is `cleanup_ghost_files`.
unfoldable pub new_memory_fs : ℕ → MemoryFs
new_memory_fs now = record {
  root = 1;
  nodes = λ p. node_at (b'/' ∷ []) true none 1 0o755 now;
  next_node = 2;
  open_files = [];
  next_inode = 2;
  write_callback = none;
  create_callback = none;
  rename_callback = none;
  context_map = [];
  discard_writes = false;
  ghost_files = [];
  cleanup_closed = false;
  ghost_memory_usage = [];
  ghost_memory_global = 0;
  max_ghost_files_per_session = 3;
  max_ghost_memory_per_session = 10 * 1024 * 1024;
  max_ghost_memory_global = 1024 * 1024 * 1024;
}
