-- ===== src/MemoryFs/Names.antt =====
-- What changes the names of the tree: Mkdir, Unlink, Rename and Link.
pub mod Effects
use smb_mem_lib.Prelude.{
  ℕ, ◌+◌, ◌%◌, ◌^◌, Bool, true, false, ◌&&◌, not, Option, none, some, Bytes, ◌==◌, if◌then◌else◌,
}
use smb_mem_lib.Prelude.Assoc.{bytes_key, delete}
use smb_mem_lib.GoPath.{clean, dir, base}
use smb_mem_lib.Vfs.Attributes.{Attributes, no_attributes, set_unix_mode, directory}
use smb_mem_lib.MemoryFs.Types.{
  path_not_found, directory_exists, delete_root, destination_exists, no_hard_links, MemoryNode,
  MemoryFs, OpenMemoryFile, Env, Op, ok, err, ◌>>=◌, ◌>>◌, return, fail, gets, modify, found,
  set_node, node_at, continue,
}
use smb_mem_lib.MemoryFs.Paths.{child_of, resolve_path, set_child, make_node}
use smb_mem_lib.MemoryFs.Handles.{load_open, judge, ask_create, node_to_attributes}
use smb_mem_lib.MemoryFs.Ghost.{get_operation_context}

-- The attributes that a blocked or discarded Mkdir returns.
abbrev dummy_attributes : Env → ℕ → Attributes
dummy_attributes env mode = set_unix_mode (mode % 2 ^ 32) (record no_attributes {
  file_type = some directory;
  inode_number = some 999999;
  m_time = some env.now;
  a_time = some env.now;
  c_time = some env.now;
  b_time = some env.now;
})

abbrev is_some : Option ℕ → Bool
is_some none = false
is_some (some p) = true

-- Mkdir, past the callback and the honeypot mode.
unfoldable pub make_directory : Env → Bytes → ℕ → Op Attributes
unfolding node_to_attributes set_child
make_directory env filepath mode = do
  resolved ← gets (resolve_path (dir (clean filepath)))
  parent ← found path_not_found resolved
  n ← gets (λ s. s.nodes parent)
  if is_some (child_of n (base (clean filepath))) then fail directory_exists else do
    node ←
        make_node (λ inode.
          node_at (base (clean filepath)) true (some parent) inode (mode % 2 ^ 32) env.now)
    set_child parent (base (clean filepath)) node
    node_to_attributes node

-- Mkdir
unfoldable pub mkdir : Env → Bytes → ℕ → Op Attributes
unfolding make_directory
mkdir env filepath mode = do
  blocked ← ask_create env filepath true mode
  discard ← gets (λ s. s.discard_writes)
  if blocked
      then return (dummy_attributes env mode)
      else if discard
      then return (dummy_attributes env mode)
      else make_directory env filepath mode

-- delete(parent.children, name), which does nothing on a nil map
abbrev remove_child : ℕ → Bytes → MemoryFs → MemoryFs
remove_child parent name fs = elim (fs.nodes parent).children [
  | none ↦ fs
  | some m ↦ set_node parent (record (fs.nodes parent) { children = some (delete name m) }) fs
]

-- Unlink
unfoldable pub unlink : ℕ → Op (Unit {0})
unlink handle = do
  discard ← gets (λ s. s.discard_writes)
  if discard then return tt else do
    f ← load_open handle
    n ← gets (λ s. s.nodes f.node)
    parent ← found delete_root n.parent
    modify (remove_child parent n.name)

abbrev pub ask_rename : Env → Bytes → Bytes → Op Bool
ask_rename env path to_path fs = elim fs.rename_callback [
  | none ↦ (ok false, fs)
  | some callback ↦
      let ctx = get_operation_context env fs in judge ctx (callback ctx path to_path) fs
]

-- Removes the node from its parent's children, if it has a parent.
abbrev pub detach : ℕ → MemoryFs → MemoryFs
detach node fs = elim (fs.nodes node).parent [
  | none ↦ fs
  | some parent ↦ remove_child parent (fs.nodes node).name fs
]

-- Rename, past the callback and the honeypot mode.
unfoldable pub move : ℕ → Bytes → ℕ → Op (Unit {0})
unfolding set_child
move node to_path flags = do
  resolved ← gets (resolve_path (dir (clean to_path)))
  to_parent ← found path_not_found resolved
  n ← gets (λ s. s.nodes to_parent)
  if is_some (child_of n (base (clean to_path))) && flags == 0 then fail destination_exists else do
    modify (detach node)
    modify (λ s.
        set_node node
          (record (s.nodes node) { name = base (clean to_path); parent = some to_parent }) s)
    set_child to_parent (base (clean to_path)) node

-- Rename
unfoldable pub rename : Env → ℕ → Bytes → ℕ → Op (Unit {0})
unfolding move
rename env handle to_path flags = do
  f ← load_open handle
  blocked ← ask_rename env f.path to_path
  discard ← gets (λ s. s.discard_writes)
  if blocked then return tt else if discard then return tt else move f.node to_path flags

-- Link
abbrev pub link : ℕ → ℕ → Bytes → Op Attributes
link old_node new_node name = fail no_hard_links
