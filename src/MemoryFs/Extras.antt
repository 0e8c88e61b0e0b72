-- ===== src/MemoryFs/Extras.antt =====
-- Directories' listings, links, extended attributes, the statistics of the file system and the
-- settings: ReadDir, Symlink, Readlink, Listxattr, Getxattr, Setxattr, Removexattr, StatFS, FSync,
-- Flush and the setters.
use Prim.Native.Nat.{min}
use smb_mem_lib.Prelude.{
  ℕ, ◌+◌, ◌*◌, ◌/◌, Bool, true, false, not, ◌&&◌, Option, none, some, List, [], ◌∷◌, Bytes, length,
  take, ltb, ◌==◌, if◌then◌else◌,
}
use smb_mem_lib.Prelude.Assoc.{Assoc, bytes_key, nat_key, load, store, delete}
use smb_mem_lib.Prelude.Words.{slt, length_ge}
use smb_mem_lib.GoPath.{dot, dot_dot}
use smb_mem_lib.Vfs.{OperationContext, WriteCallback, CreateCallback, RenameCallback}
use smb_mem_lib.Vfs.Attributes.{Attributes}
use smb_mem_lib.MemoryFs.Types.{
  invalid_handle, not_a_directory, not_a_symlink, attribute_not_found, eof, MemoryNode, MemoryFs,
  Env, Op, ok, ◌>>=◌, ◌>>◌, return, fail, gets, modify, found, set_node,
}
use smb_mem_lib.MemoryFs.Handles.{load_open, node_to_attributes}

-- vfs.DirInfo
pub record DirInfo : Type 0 where
  pub name : Bytes
  pub attributes : Attributes

-- The loop of ReadDir over the children, with the number of results so far.
unfoldable pub list_children : ℕ → ℕ → Assoc Bytes ℕ → Op (List DirInfo)
unfolding node_to_attributes
list_children max_entries count [] fs = (ok [], fs)
list_children max_entries count ((name, child) ∷ more) fs =
    elim (slt 0 max_entries && length_ge count max_entries) [
      | true ↦ (ok [], fs)
      | false ↦
          (do
            attrs ← node_to_attributes child
            rest ← list_children max_entries (count + 1) more
            return (record { name = name; attributes = attrs } ∷ rest))
            fs
    ]

abbrev pub children_or_empty : MemoryNode → Assoc Bytes ℕ
children_or_empty n = elim n.children [ none ↦ [] | some m ↦ m ]

-- ReadDir. `open.dirPos = 1` changes the OpenMemoryFile in place.
unfoldable pub read_dir : ℕ → ℕ → Op (List DirInfo)
unfolding list_children
read_dir handle max_entries = if handle == 0 then fail invalid_handle else do
  f ← load_open handle
  n ← gets (λ s. s.nodes f.node)
  if not n.is_dir then fail not_a_directory else if ltb 0 f.dir_pos then fail eof else do
    attrs ← node_to_attributes f.node
    rest ← list_children max_entries 2 (children_or_empty n)
    modify (λ s. record s { open_files = store handle (record f { dir_pos = 1 }) s.open_files })
    return (
        record { name = dot; attributes = attrs }
        ∷ record { name = dot_dot; attributes = attrs }
        ∷ rest)

-- Readlink
unfoldable pub readlink : ℕ → Op Bytes
readlink handle = do
  f ← load_open handle
  n ← gets (λ s. s.nodes f.node)
  if n.is_symlink then return n.symlink_to else fail not_a_symlink

-- Symlink, which calls nodeToAttributes under its own lock of the node.
unfoldable pub make_symlink : ℕ → Bytes → Op Attributes
unfolding node_to_attributes
make_symlink handle source = do
  f ← load_open handle
  modify (λ s. set_node f.node (record (s.nodes f.node) { locked = true }) s)
  modify
      (λ s. set_node f.node (record (s.nodes f.node) { is_symlink = true; symlink_to = source }) s)
  attrs ← node_to_attributes f.node
  modify (λ s. set_node f.node (record (s.nodes f.node) { locked = false }) s)
  return attrs

abbrev keys : Assoc Bytes Bytes → List Bytes
keys [] = []
keys ((k, v) ∷ m) = k ∷ keys m

-- Listxattr
unfoldable pub list_xattr : ℕ → Op (List Bytes)
list_xattr handle = do f ← load_open handle; gets (λ s. keys (s.nodes f.node).xattrs)

-- Getxattr, with the length of the buffer, or none for nil; the result is the number and the bytes
-- that are copied.
unfoldable pub get_xattr : ℕ → Bytes → Option ℕ → Op (ℕ × Bytes)
get_xattr handle key buffer = do
  f ← load_open handle
  value ← gets (λ s. load key (s.nodes f.node).xattrs)
  bytes ← found attribute_not_found value
  elim buffer [
    | none ↦ return (length bytes, [])
    | some len ↦ return (min len (length bytes), take len bytes)
  ]

abbrev or_empty : Option Bytes → Bytes
or_empty none = []
or_empty (some v) = v

-- Setxattr
unfoldable pub set_xattr : ℕ → Bytes → Option Bytes → Op (Unit {0})
set_xattr handle key value = do
  discard ← gets (λ s. s.discard_writes)
  if discard then return tt else do
    f ← load_open handle
    modify (λ s.
        set_node f.node
          (record (s.nodes f.node) { xattrs = store key (or_empty value) (s.nodes f.node).xattrs })
          s)

-- Removexattr
unfoldable pub remove_xattr : ℕ → Bytes → Op (Unit {0})
remove_xattr handle key = do
  f ← load_open handle
  modify (λ s.
      set_node f.node (record (s.nodes f.node) { xattrs = delete key (s.nodes f.node).xattrs }) s)

-- vfs.FSAttributes, as far as StatFS sets it
pub record FsAttributes : Type 0 where
  pub available_blocks : ℕ
  pub block_size : ℕ
  pub blocks : ℕ
  pub files : ℕ
  pub free_blocks : ℕ
  pub free_files : ℕ
  pub io_size : ℕ

-- StatFS
abbrev pub stat_fs : FsAttributes
stat_fs = record {
  available_blocks = 900 * 1024 * 1024 / 4096;
  block_size = 4096;
  blocks = 1024 * 1024 * 1024 / 4096;
  files = 1000000;
  free_blocks = 900 * 1024 * 1024 / 4096;
  free_files = 999999;
  io_size = 4096;
}

-- FSync and Flush
abbrev pub fsync : ℕ → Op (Unit {0})
fsync handle = return tt

abbrev pub flush : ℕ → Op (Unit {0})
flush handle = return tt

-- SetOperationContext; none is nil.
unfoldable pub set_operation_context : Env → Option OperationContext → MemoryFs → MemoryFs
set_operation_context env none fs = record fs { context_map = delete env.goroutine fs.context_map }
set_operation_context env (some ctx) fs = record fs {
  context_map = store env.goroutine ctx fs.context_map;
}

abbrev pub set_write_callback : Option WriteCallback → MemoryFs → MemoryFs
set_write_callback callback fs = record fs { write_callback = callback }

abbrev pub set_create_callback : Option CreateCallback → MemoryFs → MemoryFs
set_create_callback callback fs = record fs { create_callback = callback }

abbrev pub set_rename_callback : Option RenameCallback → MemoryFs → MemoryFs
set_rename_callback callback fs = record fs { rename_callback = callback }

abbrev pub set_discard_writes : Bool → MemoryFs → MemoryFs
set_discard_writes discard fs = record fs { discard_writes = discard }
