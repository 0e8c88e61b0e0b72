-- ===== src/MemoryFs/Handles.antt =====
-- Handles: GetAttr, SetAttr, Open, Close, Lookup and OpenDir, with the conversion of a node to
-- attributes and the calls of the create callback.
use Prim.Native.Nat.{bit_and}
use smb_mem_lib.Prelude.{
  ℕ, ◌*◌, ◌/◌, ◌%◌, ◌^◌, Bool, true, false, Option, none, some, ◌∷◌, [], Bytes, ◌==◌, if◌then◌else◌,
}
use smb_mem_lib.Prelude.Assoc.{nat_key, load, store, delete}
use smb_mem_lib.Prelude.Words.{add64}
use smb_mem_lib.GoPath.{slash, base, join}
use smb_mem_lib.Vfs.{OperationContext, InterceptResult}
use smb_mem_lib.Vfs.Permissions.{new_permissions_from_mode}
use smb_mem_lib.Vfs.Attributes.{
  Attributes, no_attributes, set_unix_mode, FileType, regular_file, directory, symlink,
}
use smb_mem_lib.MemoryFs.Types.{
  path_not_found, invalid_handle, not_a_directory, rejected, MemoryNode, OpenMemoryFile, GhostFile,
  MemoryFs, Env, Op, ok, deadlock, ◌>>=◌, ◌>>◌, return, fail, crash, gets, modify, found, set_node,
  new_node, node_at,
}
use smb_mem_lib.MemoryFs.Paths.{resolve_path, add_file}
use smb_mem_lib.MemoryFs.Ghost.{get_operation_context, get_ghost_file, add_ghost_file}

abbrev file_type_of : MemoryNode → FileType
file_type_of n = if n.is_symlink then symlink else if n.is_dir then directory else regular_file

-- nodeToAttributesLocked
unfoldable pub node_to_attributes_locked : MemoryNode → Attributes
unfolding new_permissions_from_mode
node_to_attributes_locked n = set_unix_mode n.mode (record no_attributes {
  file_type = some (file_type_of n);
  inode_number = some n.inode;
  m_time = some n.mtime;
  a_time = some n.atime;
  c_time = some n.ctime;
  b_time = some n.btime;
  permissions = some (new_permissions_from_mode (bit_and n.mode 0o777));
  size_bytes = some n.size;
  disk_size = some (add64 n.size 511 / 512 * 512);
  uid = some n.uid;
  gid = some n.gid;
})

-- nodeToAttributes, which waits for the read lock of the node.
unfoldable pub node_to_attributes : ℕ → Op Attributes
unfolding node_to_attributes_locked
node_to_attributes p fs =
    if (fs.nodes p).locked
    then (deadlock, fs)
    else (ok (node_to_attributes_locked (fs.nodes p)), fs)

-- v, ok := fs.openFiles.Load(handle)
abbrev pub load_open : ℕ → Op OpenMemoryFile
load_open handle fs = found invalid_handle (load handle fs.open_files) fs

-- GetAttr
unfoldable pub get_attr : ℕ → Op Attributes
unfolding node_to_attributes
get_attr handle =
    if handle == 0
    then (do root ← gets (λ s. s.root); node_to_attributes root)
    else (do f ← load_open handle; node_to_attributes f.node)

abbrev or_else : Option ℕ → ℕ → ℕ
or_else none old = old
or_else (some v) old = v

abbrev with_attributes : Attributes → MemoryNode → MemoryNode
with_attributes a n = record n {
  atime = or_else a.a_time n.atime;
  mtime = or_else a.m_time n.mtime;
  ctime = or_else a.c_time n.ctime;
  btime = or_else a.b_time n.btime;
  mode = or_else a.unix_mode n.mode;
}

-- SetAttr
unfoldable pub set_attr : ℕ → Attributes → Op Attributes
unfolding node_to_attributes_locked
set_attr handle a = if handle == 0 then fail invalid_handle else do
  f ← load_open handle
  modify (λ s. set_node f.node (with_attributes a (s.nodes f.node)) s)
  gets (λ s. node_to_attributes_locked (s.nodes f.node))

-- What a callback's result leads to: its error, a blocked operation (true), or neither. The log line
-- reads ctx.RemoteAddr, which panics where there is no context.
abbrev pub judge : Option OperationContext → InterceptResult → Op Bool
judge ctx r = elim r.error [
  | some e ↦ (elim ctx [ none ↦ crash | some c ↦ fail (rejected e) ])
  | none ↦ (if r.block then (elim ctx [ none ↦ crash | some c ↦ return true ]) else return false)
]

abbrev pub ask_create : Env → Bytes → Bool → ℕ → Op Bool
ask_create env filepath is_dir mode fs = elim fs.create_callback [
  | none ↦ (ok false, fs)
  | some callback ↦
      let ctx = get_operation_context env fs in judge ctx (callback ctx filepath is_dir mode) fs
]

-- A new handle for a node.
abbrev pub store_open : Env → ℕ → Bytes → Bool → Op ℕ
store_open env node filepath is_dir fs = (
  ok env.random,
  record fs {
    open_files =
        store env.random
          (record {
            node = node;
            handle = env.random;
            path = filepath;
            is_dir = is_dir;
            dir_pos = 0;
          })
          fs.open_files;
  },
)

-- The node behind the handle that a blocked or discarded creation returns.
unfoldable pub open_dummy : Env → Bytes → ℕ → Op ℕ
open_dummy env filepath mode = do
  node ← new_node (node_at (base filepath) false none 999999 (mode % 2 ^ 32) env.now)
  store_open env node filepath false

-- The part of Open for a file that is to be created.
unfoldable pub open_created : Env → Bytes → ℕ → Op ℕ
unfolding open_dummy
open_created env filepath mode = do
  blocked ← ask_create env filepath false mode
  discard ← gets (λ s. s.discard_writes)
  if blocked
      then open_dummy env filepath mode
      else if discard
      then open_dummy env filepath mode
      else do
        add_file env filepath [] (mode % 2 ^ 32)
        resolved ← gets (resolve_path filepath)
        node ← found path_not_found resolved
        n ← gets (λ s. s.nodes node)
        store_open env node filepath n.is_dir

-- The part of Open for a file that is not there and not to be created.
unfoldable pub open_ghost : Env → Bytes → Op ℕ
unfolding get_ghost_file
open_ghost env filepath fs =
    let (ghost, s) = get_ghost_file env filepath fs in
    (found path_not_found ghost >>= λ g s. store_open env g.node filepath (s.nodes g.node).is_dir s)
      s

-- Open. 0x40 is os.O_CREATE.
unfoldable pub open_file : Env → Bytes → ℕ → ℕ → Op ℕ
unfolding open_created open_ghost
open_file env filepath flags mode fs = elim (resolve_path filepath fs) [
  | some node ↦ store_open env node filepath (fs.nodes node).is_dir fs
  | none ↦
      (if bit_and flags 0x40 == 0
        then open_ghost env filepath fs
        else open_created env filepath mode fs)
]

-- The registration of Close, after the search for the ghost file, which moves its last access.
abbrev pub add_if_new : Env → OpenMemoryFile → Option GhostFile → MemoryFs → MemoryFs
add_if_new env f none fs = add_ghost_file env f.path f.node fs
add_if_new env f (some ghost) fs = fs

unfoldable pub keep_ghost : Env → OpenMemoryFile → MemoryFs → MemoryFs
unfolding get_ghost_file add_ghost_file
keep_ghost env f fs = let (ghost, s) = get_ghost_file env f.path fs in add_if_new env f ghost s

unfoldable pub settle : Env → OpenMemoryFile → MemoryFs → MemoryFs
unfolding keep_ghost
settle env f fs = if fs.discard_writes then keep_ghost env f fs else fs

-- Close
unfoldable pub close : Env → ℕ → Op (Unit {0})
unfolding settle
close env handle = do
  f ← load_open handle
  modify (settle env f)
  modify (λ s. record s { open_files = delete handle s.open_files })

-- Lookup
unfoldable pub lookup : ℕ → Bytes → Op Attributes
unfolding node_to_attributes
lookup handle name = do
  base_path ← (if handle == 0 then return (slash ∷ []) else do f ← load_open handle; return f.path)
  resolved ← gets (resolve_path (join base_path name))
  node ← found path_not_found resolved
  node_to_attributes node

-- OpenDir
unfoldable pub open_dir : Env → Bytes → Op ℕ
open_dir env filepath = do
  resolved ← gets (resolve_path filepath)
  node ← found path_not_found resolved
  n ← gets (λ s. s.nodes node)
  if n.is_dir then store_open env node filepath true else fail not_a_directory
