-- ===== src/MemoryFs/Sound/Others.antt =====
-- The methods on names and handles, and the upkeep, of memoryshare/memory_fs.go: contents and sizes.
use smb_mem_lib.Prelude.{
  ℕ, ◌%◌, ◌^◌, Bool, true, false, Option, none, some, List, [], ◌∷◌, Bytes, arith, Option-cases,
  inl, inr,
}
use smb_mem_lib.Prelude.Assoc.{nat_key, load}
use smb_mem_lib.Vfs.{OperationContext}
use smb_mem_lib.GoPath.{clean, dir}
use smb_mem_lib.MemoryFs.Types.{MemoryFs, Env, GhostFile, found, path_not_found}
use smb_mem_lib.MemoryFs.Ghost.{remove_ghost_file, all_files}
use smb_mem_lib.MemoryFs.Ghost.Upkeep.{expire_one, expire, cleanup_ghost_files}
use smb_mem_lib.MemoryFs.Paths.{resolve_path, add_file}
use smb_mem_lib.MemoryFs.Handles.{
  load_open, store_open, node_to_attributes, ask_create, open_dummy, open_created, open_ghost,
  open_file, close, lookup, open_dir,
}
use smb_mem_lib.MemoryFs.Content.{read}
use smb_mem_lib.MemoryFs.Names.{ask_rename, make_directory, mkdir, unlink, move, rename}
use smb_mem_lib.MemoryFs.Extras.{
  children_or_empty, read_dir, readlink, make_symlink, list_xattr, get_xattr, set_xattr,
  remove_xattr, set_operation_context,
}
use smb_mem_lib.MemoryFs.Honeypot.Methods.{list_children-same}
use smb_mem_lib.MemoryFs.Sound.{IsSound}
use smb_mem_lib.MemoryFs.Sound.Trees.{Keeps, Keeps-bind, add_file-Keeps}
use smb_mem_lib.MemoryFs.Sound.Methods.{
  choose-Keeps, load_open-Keeps, found-Keeps, ask_create-Keeps,
}

pub lookup-Keeps : (h : ℕ) (name : Bytes) → Keeps (lookup h name)
unfolding lookup node_to_attributes
lookup-Keeps h name fs s = record {
  kept = ground (arith, s.kept);
  backed = λ q. ground (arith, s.backed q);
}

pub open_dir-Keeps : (env : Env) (p : Bytes) → Keeps (open_dir env p)
unfolding open_dir
open_dir-Keeps env p fs s = record {
  kept = ground (arith, s.kept);
  backed = λ q. ground (arith, s.backed q);
}

pub read-Keeps : (h len offset : ℕ) → Keeps (read h len offset)
unfolding read
read-Keeps h len offset fs s = record {
  kept = ground (arith, s.kept);
  backed = λ q. ground (arith, s.backed q);
}

pub readlink-Keeps : (h : ℕ) → Keeps (readlink h)
unfolding readlink
readlink-Keeps h fs s = record {
  kept = ground (arith, s.kept);
  backed = λ q. ground (arith, s.backed q);
}

pub make_symlink-Keeps : (h : ℕ) (p : Bytes) → Keeps (make_symlink h p)
unfolding make_symlink node_to_attributes
make_symlink-Keeps h p fs s = record {
  kept = ground (arith, s.kept);
  backed = λ q. ground (arith, s.backed q);
}

pub list_xattr-Keeps : (h : ℕ) → Keeps (list_xattr h)
unfolding list_xattr
list_xattr-Keeps h fs s = record {
  kept = ground (arith, s.kept);
  backed = λ q. ground (arith, s.backed q);
}

pub get_xattr-Keeps : (h : ℕ) (k : Bytes) (b : Option ℕ) → Keeps (get_xattr h k b)
unfolding get_xattr
get_xattr-Keeps h k b fs s = record {
  kept = ground (arith, s.kept);
  backed = λ q. ground (arith, s.backed q);
}

pub set_xattr-Keeps : (h : ℕ) (k : Bytes) (v : Option Bytes) → Keeps (set_xattr h k v)
unfolding set_xattr
set_xattr-Keeps h k v fs s = record {
  kept = ground (arith, s.kept);
  backed = λ q. ground (arith, s.backed q);
}

pub remove_xattr-Keeps : (h : ℕ) (k : Bytes) → Keeps (remove_xattr h k)
unfolding remove_xattr
remove_xattr-Keeps h k fs s = record {
  kept = ground (arith, s.kept);
  backed = λ q. ground (arith, s.backed q);
}

pub unlink-Keeps : (h : ℕ) → Keeps (unlink h)
unfolding unlink
unlink-Keeps h fs s = record {
  kept = ground (arith, s.kept);
  backed = λ q. ground (arith, s.backed q);
}

open_dummy-Keeps : (env : Env) (p : Bytes) (mode : ℕ) → Keeps (open_dummy env p mode)
unfolding open_dummy
open_dummy-Keeps env p mode fs s = record {
  kept = ground (arith, s.kept);
  backed = λ q. ground (arith, s.backed q);
}

open_ghost-Keeps : (env : Env) (p : Bytes) → Keeps (open_ghost env p)
unfolding open_ghost
open_ghost-Keeps env p fs s = record {
  kept = ground (arith, s.kept);
  backed = λ q. ground (arith, s.backed q);
}

store_open-Keeps : (env : Env) (p : ℕ) (path : Bytes) (d : Bool) → Keeps (store_open env p path d)
store_open-Keeps env p path d fs s = record {
  kept = ground (arith, s.kept);
  backed = λ q. ground (arith, s.backed q);
}

ask_rename-Keeps : (env : Env) (p to : Bytes) → Keeps (ask_rename env p to)
ask_rename-Keeps env p to fs s = record {
  kept = ground (arith, s.kept);
  backed = λ q. ground (arith, s.backed q);
}

open_created-Keeps : (env : Env) (p : Bytes) (mode : ℕ) → Keeps (open_created env p mode)
unfolding open_created
open_created-Keeps env p mode =
    Keeps-bind (ask_create env p false mode) _ (ask_create-Keeps env p false mode) λ blocked s k.
      choose-Keeps blocked s.discard_writes _ _ _ s k.kept (open_dummy-Keeps env p mode s k) (
        Keeps-bind (add_file env p [] (mode % 2 ^ 32)) _ (add_file-Keeps env p [] (mode % 2 ^ 32))
          (λ _ t j.
            Keeps-bind (found path_not_found (resolve_path p t)) _
              (found-Keeps path_not_found (resolve_path p t))
              (λ node u i. store_open-Keeps env node p (u.nodes node).is_dir u i) t j)
          s k)

pub open_file-Keeps : (env : Env) (p : Bytes) (flags mode : ℕ) → Keeps (open_file env p flags mode)
unfolding open_file
open_file-Keeps env p flags mode fs s = record {
  kept = ground (arith, s.kept, open_ghost-Keeps env p fs s, open_created-Keeps env p mode fs s);
  backed = λ q. ground (
    arith,
    s.backed q,
    (open_ghost-Keeps env p fs s).backed q,
    (open_created-Keeps env p mode fs s).backed q,
  );
}

pub close-Keeps : (env : Env) (h : ℕ) → Keeps (close env h)
unfolding close
close-Keeps env h fs s = record {
  kept = ground (arith, s.kept);
  backed = λ q. ground (arith, s.kept, s.backed q);
}

make_directory-Keeps : (env : Env) (p : Bytes) (mode : ℕ) → Keeps (make_directory env p mode)
unfolding make_directory node_to_attributes
make_directory-Keeps env p mode fs s =
    Keeps-bind (found path_not_found (resolve_path (dir (clean p)) fs)) _
      (found-Keeps path_not_found (resolve_path (dir (clean p)) fs))
      (λ parent t k. record {
        kept = ground (arith, k.kept);
        backed = λ q. ground (arith, k.backed q, k.backed parent);
      })
      fs s

pub mkdir-Keeps : (env : Env) (p : Bytes) (mode : ℕ) → Keeps (mkdir env p mode)
unfolding mkdir
mkdir-Keeps env p mode =
    Keeps-bind (ask_create env p true mode) _ (ask_create-Keeps env p true mode) λ blocked s k.
      choose-Keeps blocked s.discard_writes _ _ _ s k.kept k (make_directory-Keeps env p mode s k)

move-Keeps : (node : ℕ) (p : Bytes) (flags : ℕ) → Keeps (move node p flags)
unfolding move
move-Keeps node p flags fs s =
    Keeps-bind (found path_not_found (resolve_path (dir (clean p)) fs)) _
      (found-Keeps path_not_found (resolve_path (dir (clean p)) fs))
      (λ parent t k. record {
        kept = ground (arith, k.kept);
        backed = λ q. ground (arith, k.backed q, k.backed parent, k.backed node);
      })
      fs s

pub rename-Keeps : (env : Env) (h : ℕ) (p : Bytes) (flags : ℕ) → Keeps (rename env h p flags)
unfolding rename
rename-Keeps env h p flags = Keeps-bind (load_open h) _ (load_open-Keeps h) λ f.
    Keeps-bind (ask_rename env f.path p) _ (ask_rename-Keeps env f.path p) λ blocked s k.
      choose-Keeps blocked s.discard_writes _ _ _ s k.kept k (move-Keeps f.node p flags s k)

pub read_dir-Keeps : (h max : ℕ) → Keeps (read_dir h max)
unfolding read_dir node_to_attributes
read_dir-Keeps h max fs s = elim (Option-cases (load h fs.open_files)) [
  | inl e ↦ record { kept = ground (arith, s.kept, e); backed = λ q. ground (arith, s.backed q, e) }
  | inr (f, e) ↦
      let same = list_children-same max 2 (children_or_empty (fs.nodes f.node)) fs in
      record {
        kept = ground (arith, s.kept, e, same);
        backed = λ q. ground (arith, s.backed q, e, same);
      }
]

expire-Keeps :
    (now : ℕ) (gs : List GhostFile) (fs : MemoryFs) → IsSound fs → IsSound (expire now gs fs)
unfolding expire expire_one remove_ghost_file
expire-Keeps now [] fs s = s
expire-Keeps now (g ∷ gs) fs s =
    expire-Keeps now gs (expire_one now g fs)
      (record { kept = ground (arith, s.kept); backed = λ q. ground (arith, s.backed q) })

pub cleanup_ghost_files-Keeps :
    (now : ℕ) (fs : MemoryFs) → IsSound fs → IsSound (cleanup_ghost_files now fs)
unfolding cleanup_ghost_files
cleanup_ghost_files-Keeps now fs s = expire-Keeps now (all_files fs.ghost_files) fs s

pub set_operation_context-Keeps :
    (env : Env) (c : Option OperationContext) (fs : MemoryFs)
    → IsSound fs
    → IsSound (set_operation_context env c fs)
unfolding set_operation_context
set_operation_context-Keeps env none fs s = record { kept = s.kept; backed = s.backed }
set_operation_context-Keeps env (some c) fs s = record { kept = s.kept; backed = s.backed }
