-- ===== src/MemoryFs/Honeypot/Methods.antt =====
-- The methods of memoryshare/memory_fs.go one by one, in the honeypot mode.
use smb_mem_lib.Prelude.{
  ℕ, ◌+◌, ◌≡◌, refl, Bool, true, false, Option, none, some, [], ◌∷◌, Bytes, arith, Option-cases,
  inl, inr, if◌then◌else◌,
}
use smb_mem_lib.Prelude.Assoc.{Assoc, nat_key, load, delete}
use smb_mem_lib.Vfs.{OperationContext}
use smb_mem_lib.Vfs.Attributes.{Attributes}
use smb_mem_lib.MemoryFs.Types.{MemoryFs, Env, OpenMemoryFile, GhostFile}
use smb_mem_lib.MemoryFs.Ghost.{get_ghost_file}
use smb_mem_lib.MemoryFs.Handles.{
  node_to_attributes, get_attr, set_attr, open_dummy, open_created, open_ghost, open_file, close,
  lookup, open_dir, keep_ghost, add_if_new, settle,
}
use smb_mem_lib.MemoryFs.Content.{read, write, discard_write, truncate}
use smb_mem_lib.MemoryFs.Names.{mkdir, unlink, rename}
use smb_mem_lib.MemoryFs.Extras.{
  list_children, children_or_empty, read_dir, readlink, make_symlink, list_xattr, get_xattr,
  set_xattr, remove_xattr, set_operation_context,
}
use smb_mem_lib.MemoryFs.Honeypot.{Held, Frozen, Frozen-refl, Frozen-trans}
use smb_mem_lib.MemoryFs.Honeypot.Ghosts.{add_ghost_file-Frozen, get_ghost_file-Frozen}

pub list_children-same :
    (max count : ℕ) (m : Assoc Bytes ℕ) (fs : MemoryFs) → (list_children max count m fs).1 ≡ fs
unfolding list_children node_to_attributes
list_children-same max count [] fs = refl
list_children-same max count ((name, child) ∷ m) fs =
    ground (arith, list_children-same max (count + 1) m fs)

add_if_new-Frozen :
    (env : Env) (f : OpenMemoryFile) (g : Option GhostFile) (fs : MemoryFs)
    → Frozen fs (add_if_new env f g fs)
add_if_new-Frozen env f none fs = add_ghost_file-Frozen env f.path f.node fs
add_if_new-Frozen env f (some g) fs = Frozen-refl fs

keep_ghost-Frozen :
    (env : Env) (f : OpenMemoryFile) (fs : MemoryFs) → Frozen fs (keep_ghost env f fs)
unfolding keep_ghost
keep_ghost-Frozen env f fs =
    let s = (get_ghost_file env f.path fs).1 in
    Frozen-trans fs s _ (get_ghost_file-Frozen env f.path fs)
      (add_if_new-Frozen env f (get_ghost_file env f.path fs).0 s)

Frozen-if : (b : Bool) (s t u : MemoryFs) → Frozen s t → Frozen s u → Frozen s (if b then t else u)
Frozen-if true s t u f g = f
Frozen-if false s t u f g = g

settle-Frozen : (env : Env) (f : OpenMemoryFile) (fs : MemoryFs) → Frozen fs (settle env f fs)
unfolding settle
settle-Frozen env f fs =
    Frozen-if fs.discard_writes fs (keep_ghost env f fs) fs (keep_ghost-Frozen env f fs)
      (Frozen-refl fs)

Frozen-open_files :
    (s t : MemoryFs) (m : Assoc ℕ OpenMemoryFile)
    → Frozen s t
    → Frozen s (record t { open_files = m })
Frozen-open_files s t m f = record {
  discard = f.discard;
  root = f.root;
  grows = f.grows;
  tree = f.tree;
}

module _ (fs : MemoryFs) (on : fs.discard_writes ≡ true) where
  pub get_attr-Frozen : (h : ℕ) → Frozen fs (get_attr h fs).1
  unfolding get_attr node_to_attributes
  get_attr-Frozen h = ground arith

  pub set_attr-Frozen : (h : ℕ) (a : Attributes) → Frozen fs (set_attr h a fs).1
  unfolding set_attr
  set_attr-Frozen h a = ground arith

  pub open_dummy-Frozen :
      (env : Env) (p : Bytes) (mode : ℕ) → Frozen fs (open_dummy env p mode fs).1
  unfolding open_dummy
  open_dummy-Frozen env p mode = ground arith

  pub open_created-Frozen :
      (env : Env) (p : Bytes) (mode : ℕ) → Frozen fs (open_created env p mode fs).1
  unfolding open_created
  open_created-Frozen env p mode = ground arith

  pub open_ghost-Frozen : (env : Env) (p : Bytes) → Frozen fs (open_ghost env p fs).1
  unfolding open_ghost
  open_ghost-Frozen env p = ground arith

  pub lookup-Frozen : (h : ℕ) (name : Bytes) → Frozen fs (lookup h name fs).1
  unfolding lookup node_to_attributes
  lookup-Frozen h name = ground arith

  pub open_dir-Frozen : (env : Env) (p : Bytes) → Frozen fs (open_dir env p fs).1
  unfolding open_dir
  open_dir-Frozen env p = ground arith

  pub mkdir-Frozen : (env : Env) (p : Bytes) (mode : ℕ) → Frozen fs (mkdir env p mode fs).1
  unfolding mkdir
  mkdir-Frozen env p mode = ground arith

  pub read-Frozen : (h len offset : ℕ) → Frozen fs (read h len offset fs).1
  unfolding read
  read-Frozen h len offset = ground arith

  pub write-Frozen :
      (env : Env) (h : ℕ) (buf : Bytes) (offset : ℕ) → Frozen fs (write env h buf offset fs).1
  unfolding write discard_write
  write-Frozen env h buf offset = ground arith

  pub truncate-Frozen : (env : Env) (h size : ℕ) → Frozen fs (truncate env h size fs).1
  unfolding truncate
  truncate-Frozen env h size = ground arith

  pub unlink-Frozen : (h : ℕ) → Frozen fs (unlink h fs).1
  unfolding unlink
  unlink-Frozen h = ground arith

  pub rename-Frozen :
      (env : Env) (h : ℕ) (p : Bytes) (flags : ℕ) → Frozen fs (rename env h p flags fs).1
  unfolding rename
  rename-Frozen env h p flags = ground arith

  pub readlink-Frozen : (h : ℕ) → Frozen fs (readlink h fs).1
  unfolding readlink
  readlink-Frozen h = ground arith

  -- MakeSymlink does not look at the mode.
  pub make_symlink-Held : (h : ℕ) (p : Bytes) → Held true fs (make_symlink h p fs).1
  unfolding make_symlink node_to_attributes
  make_symlink-Held h p = ground arith

  pub list_xattr-Frozen : (h : ℕ) → Frozen fs (list_xattr h fs).1
  unfolding list_xattr
  list_xattr-Frozen h = ground arith

  pub get_xattr-Frozen : (h : ℕ) (k : Bytes) (b : Option ℕ) → Frozen fs (get_xattr h k b fs).1
  unfolding get_xattr
  get_xattr-Frozen h k b = ground arith

  pub set_xattr-Frozen : (h : ℕ) (k : Bytes) (v : Option Bytes) → Frozen fs (set_xattr h k v fs).1
  unfolding set_xattr
  set_xattr-Frozen h k v = ground arith

  pub remove_xattr-Frozen : (h : ℕ) (k : Bytes) → Frozen fs (remove_xattr h k fs).1
  unfolding remove_xattr
  remove_xattr-Frozen h k = ground arith

  pub set_operation_context-Frozen :
      (env : Env) (c : Option OperationContext) → Frozen fs (set_operation_context env c fs)
  unfolding set_operation_context
  set_operation_context-Frozen env none = ground arith
  set_operation_context-Frozen env (some c) = ground arith

  pub open_file-Frozen :
      (env : Env) (p : Bytes) (flags mode : ℕ) → Frozen fs (open_file env p flags mode fs).1
  unfolding open_file
  open_file-Frozen env p flags mode =
      ground (arith, open_ghost-Frozen env p, open_created-Frozen env p mode)

  pub close-Frozen : (env : Env) (h : ℕ) → Frozen fs (close env h fs).1
  unfolding close
  close-Frozen env h = elim (Option-cases (load h fs.open_files)) [
    | inl e ↦ rw e (Frozen-refl fs)
    | inr (f, e) ↦ rw e (
        Frozen-open_files fs (settle env f fs) (delete h (settle env f fs).open_files)
          (settle-Frozen env f fs))
  ]

  pub read_dir-Frozen : (h max : ℕ) → Frozen fs (read_dir h max fs).1
  unfolding read_dir node_to_attributes
  read_dir-Frozen h max = elim (Option-cases (load h fs.open_files)) [
    | inl e ↦ ground (arith, e)
    | inr (f, e) ↦
        ground (arith, e, list_children-same max 2 (children_or_empty (fs.nodes f.node)) fs)
  ]
