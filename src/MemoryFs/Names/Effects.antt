-- ===== src/MemoryFs/Names/Effects.antt =====
-- What Mkdir, Unlink and Rename do to the tree outside the honeypot mode.
use smb_mem_lib.Prelude.{
  ℕ, ◌<◌, ◌≡◌, ◌≢◌, true, false, none, some, Bytes, bytes_eq, arith, [], if◌then◌else◌, ◌==◌, ◌&&◌,
}
use smb_mem_lib.Prelude.Assoc.{Assoc, bytes_key, nat_key, load, load-store, load-delete, same_refl}
use smb_mem_lib.GoPath.{clean, dir, base}
use smb_mem_lib.MemoryFs.Types.{MemoryFs, OpenMemoryFile, Env, ok, panic, set_node}
use smb_mem_lib.MemoryFs.Paths.{child_of, resolve_path, set_child}
use smb_mem_lib.MemoryFs.Paths.Walks.{kids}
use smb_mem_lib.MemoryFs.Handles.{node_to_attributes}
use smb_mem_lib.MemoryFs.Names.{make_directory, mkdir, unlink, move, rename, detach}

-- Outside the honeypot mode, Unlink of an open file with a parent succeeds, and afterwards the parent
-- has no child under the file's name and the same child as before under any other name.
unlink_lem :
    (fs : MemoryFs) (h : ℕ) (f : OpenMemoryFile) (parent : ℕ) (name : Bytes)
    → fs.discard_writes ≡ false
    → load h fs.open_files ≡ some f
    → (fs.nodes f.node).parent ≡ some parent
    → ((unlink h fs).0 ≡ ok tt)
      × (child_of ((unlink h fs).1.nodes parent) name ≡ (
          if bytes_eq (fs.nodes f.node).name name then none else child_of (fs.nodes parent) name))
unfolding unlink
unlink_lem fs h f parent name kept opened up = (
  ground (arith, kept, opened, up),
  ground
      (arith, kept, opened, up, load-delete (fs.nodes f.node).name name (kids (fs.nodes parent))),
)

module _ (env : Env) (fs : MemoryFs) (p : Bytes) (mode parent : ℕ)
    (kept : fs.discard_writes ≡ false) (quiet : fs.create_callback ≡ none)
    (found_parent : resolve_path (dir (clean p)) fs ≡ some parent) where
  -- Outside the honeypot mode and without a callback, where the parent of the path is a directory in use
  -- that has no such child: Mkdir makes a new node, an empty directory with that parent; the parent has
  -- it under the name, and under any other name the child that it had.
  mkdir_lem :
      (m : Assoc Bytes ℕ) (name : Bytes)
      → parent < fs.next_node
      → (fs.nodes parent).children ≡ some m
      → load (base (clean p)) m ≡ none
      → (child_of ((mkdir env p mode fs).1.nodes parent) name ≡ (
          if bytes_eq (base (clean p)) name
          then some fs.next_node
          else child_of (fs.nodes parent) name))
        × (((mkdir env p mode fs).1.nodes fs.next_node).is_dir ≡ true)
        × (((mkdir env p mode fs).1.nodes fs.next_node).children ≡ some [])
        × (((mkdir env p mode fs).1.nodes fs.next_node).parent ≡ some parent)
  unfolding mkdir make_directory set_child node_to_attributes
  mkdir_lem m name used children fresh = (
    ground (
      arith,
      kept,
      quiet,
      found_parent,
      children,
      fresh,
      load-store (base (clean p)) name fs.next_node m,
    ),
    ground (arith, kept, quiet, found_parent, children, fresh),
    ground (arith, kept, quiet, found_parent, children, fresh),
    ground (arith, kept, quiet, found_parent, children, fresh),
  )

  -- Outside the honeypot mode and without a callback, Mkdir below a node that has no map of children, as
  -- a file has none, panics.
  mkdir_below_file :
      parent < fs.next_node → (fs.nodes parent).children ≡ none → (mkdir env p mode fs).0 ≡ panic
  unfolding mkdir make_directory set_child
  mkdir_below_file used children = ground (arith, kept, quiet, found_parent, children)

module _ (env : Env) (fs : MemoryFs) (h : ℕ) (f : OpenMemoryFile) (p : Bytes) (to old : ℕ)
    (m : Assoc Bytes ℕ) (kept : fs.discard_writes ≡ false) (quiet : fs.rename_callback ≡ none)
    (opened : load h fs.open_files ≡ some f)
    (found_parent : resolve_path (dir (clean p)) fs ≡ some to)
    (children : (fs.nodes to).children ≡ some m) (fresh : load (base (clean p)) m ≡ none)
    (up : (fs.nodes f.node).parent ≡ some old) where
  -- The state before the new parent gets the node.
  abbrev moved : MemoryFs
  moved =
      let s = detach f.node fs in
      set_node f.node (record (s.nodes f.node) { name = base (clean p); parent = some to }) s

  moved_children : (moved.nodes to).children ≡ some (kids (moved.nodes to))
  moved_children = ground (arith, children, up)

  moved_node :
      ((moved.nodes f.node).name ≡ base (clean p)) × ((moved.nodes f.node).parent ≡ some to)
  moved_node = ground arith

  rename-moved : (flags : ℕ) → rename env h p flags fs ≡ set_child to (base (clean p)) f.node moved
  unfolding rename move
  rename-moved flags = ground (arith, kept, quiet, opened, found_parent, children, fresh)

  -- Outside the honeypot mode and without a callback, where the parent of the new path is a directory
  -- with no such child: Rename of an open node that has a parent succeeds, the node has the new name and
  -- the new parent, and of all the children of all nodes `q` under all names `part` only two change: the
  -- new parent has the node under the new name, and else the old parent has nothing under the old name.
  pub rename_lem :
      (flags q : ℕ) (part : Bytes)
      → ((rename env h p flags fs).0 ≡ ok tt)
        × (((rename env h p flags fs).1.nodes f.node).name ≡ base (clean p))
        × (((rename env h p flags fs).1.nodes f.node).parent ≡ some to)
        × (child_of ((rename env h p flags fs).1.nodes q) part ≡ (
            if (q == to) && bytes_eq (base (clean p)) part
            then some f.node
            else if (q == old) && bytes_eq (fs.nodes f.node).name part
            then none
            else child_of (fs.nodes q) part))
  unfolding set_child
  rename_lem flags q part = rw (rename-moved flags) (
    ground (arith, moved_children),
    ground (arith, moved_children, moved_node),
    ground (arith, moved_children, moved_node),
    ground (
      arith,
      children,
      up,
      moved_children,
      load-store (base (clean p)) part f.node (kids (moved.nodes to)),
      load-delete (fs.nodes f.node).name part (kids (fs.nodes old)),
    ),
  )

  -- Outside the honeypot mode and without a callback, where the parent of the new path is the renamed
  -- directory itself, which has no child of the new name: after Rename it is its own parent and its own
  -- child, and its old parent, another node, has no child under its old name.
  pub rename_into_self :
      (flags : ℕ)
      → to ≡ f.node
      → old ≢ f.node
      → (((rename env h p flags fs).1.nodes f.node).parent ≡ some f.node)
        × (child_of ((rename env h p flags fs).1.nodes f.node) (base (clean p)) ≡ some f.node)
        × (child_of ((rename env h p flags fs).1.nodes old) (fs.nodes f.node).name ≡ none)
  unfolding set_child
  rename_into_self flags same other = rw (rename-moved flags) (
    ground (arith, moved_children, moved_node, same),
    ground (
      arith,
      moved_children,
      same,
      load-store (base (clean p)) (base (clean p)) f.node (kids (moved.nodes to)),
      same_refl (base (clean p)),
    ),
    ground (
      arith,
      moved_children,
      same,
      other,
      load-delete (fs.nodes f.node).name (fs.nodes f.node).name (kids (fs.nodes old)),
      same_refl (fs.nodes f.node).name,
    ),
  )
