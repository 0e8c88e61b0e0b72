-- ===== src/MemoryFs/Paths.antt =====
-- Names to nodes: resolvePath, getOrCreateDirPath, AddFile and AddDirectory.
pub mod Walks
use smb_mem_lib.Prelude.{
  ℕ, ◌+◌, Bool, true, false, ◌||◌, Option, none, some, List, [], ◌∷◌, Bytes, bytes_eq, length,
  if◌then◌else◌,
}
use smb_mem_lib.Prelude.Assoc.{bytes_key, load, store}
use smb_mem_lib.GoPath.{slash, dot, split, trim, clean, dir, base}
use smb_mem_lib.MemoryFs.Types.{
  file_at_root, component_not_directory, MemoryNode, MemoryFs, Env, Op, ok, err, ◌>>=◌, ◌>>◌,
  return, fail, gets, modify, set_node, new_node, node_at, panic,
}

-- A read of a nil map finds nothing.
abbrev pub child_of : MemoryNode → Bytes → Option ℕ
child_of n part = elim n.children [ none ↦ none | some m ↦ load part m ]

-- The loop of resolvePath over the parts.
unfoldable pub walk : MemoryFs → ℕ → List Bytes → Option ℕ
walk fs current [] = some current
walk fs current (part ∷ parts) = elim (bytes_eq part []) [
  | true ↦ walk fs current parts
  | false ↦ (elim (child_of (fs.nodes current) part) [
    | none ↦ none
    | some child ↦ walk fs child parts
  ])
]

-- Whether the cleaned path stands for the root.
abbrev pub is_root_path : Bytes → Bool
is_root_path p = bytes_eq p (slash ∷ []) || bytes_eq p dot

unfoldable pub resolve_path : Bytes → MemoryFs → Option ℕ
resolve_path filepath fs =
    let p = clean filepath in
    if is_root_path p then some fs.root else walk fs fs.root (split (trim p))

-- parent.children[name] = child, which panics on a nil map.
unfoldable pub set_child : ℕ → Bytes → ℕ → Op (Unit {0})
set_child parent name child fs = elim (fs.nodes parent).children [
  | none ↦ (panic, fs)
  | some m ↦ (
    ok tt,
    set_node parent (record (fs.nodes parent) { children = some (store name child m) }) fs,
  )
]

-- A new node with the next inode number.
abbrev pub make_node : (ℕ → MemoryNode) → Op ℕ
make_node literal = do
  inode ← gets (λ s. s.next_inode)
  p ← new_node (literal inode)
  modify (λ s. record s { next_inode = s.next_inode + 1 })
  return p

-- One round of getOrCreateDirPath: the child, which is made if it is not there.
unfoldable pub child_or_new : Env → ℕ → Bytes → Op ℕ
unfolding set_child
child_or_new env current part fs = elim (child_of (fs.nodes current) part) [
  | some child ↦ (ok child, fs)
  | none ↦
      (do
        child ← make_node (λ inode. node_at part true (some current) inode 0o755 env.now)
        set_child current part child
        return child)
        fs
]

unfoldable pub make_dirs : Env → ℕ → List Bytes → Op ℕ
make_dirs env current [] fs = (ok current, fs)
make_dirs env current (part ∷ parts) fs = elim (bytes_eq part []) [
  | true ↦ make_dirs env current parts fs
  | false ↦
      (child_or_new env current part >>= λ child s. elim (s.nodes child).is_dir [
        | true ↦ make_dirs env child parts s
        | false ↦ (err component_not_directory, s)
      ])
        fs
]

unfoldable pub get_or_create_dir_path : Env → Bytes → Op ℕ
get_or_create_dir_path env dirpath fs =
    let p = clean dirpath in
    if is_root_path p then (ok fs.root, fs) else make_dirs env fs.root (split (trim p)) fs

-- AddFile
unfoldable pub add_file : Env → Bytes → Bytes → ℕ → Op (Unit {0})
unfolding set_child
add_file env filepath content mode =
    let p = clean filepath in
    if bytes_eq p (slash ∷ []) then fail file_at_root else do
      parent ← get_or_create_dir_path env (dir p)
      node ← make_node (λ inode. record (node_at (base p) false (some parent) inode mode env.now) {
        content = content;
        size = length content;
      })
      set_child parent (base p) node

-- AddDirectory
unfoldable pub add_directory : Env → Bytes → ℕ → Op (Unit {0})
add_directory env dirpath mode =
    let p = clean dirpath in
    if bytes_eq p (slash ∷ []) then return tt else do get_or_create_dir_path env p; return tt
