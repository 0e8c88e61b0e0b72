-- ===== src/MemoryFs/Ghost/Expiry.antt =====
-- cleanupGhostFiles of memoryshare/memory_fs.go: what a tick leaves in the registry.
use smb_mem_lib.Prelude.{
  ℕ, ◌-◌, ◌*◌, ltb, ◌≡◌, refl, Bool, Option, none, some, List, [], ◌∷◌, Bytes, All, arith, ◌⊎◌, ◌∙◌,
  bytes_eq, bytes_eq_iff, Bool-cases, Option-cases, All-mono, ◌&&◌, ◌||◌, false, inl, inr,
  if◌then◌else◌,
}
use smb_mem_lib.Prelude.Assoc.{Assoc, bytes_key, nat_key, load, load-delete, Distinct}
use smb_mem_lib.MemoryFs.Types.{GhostFile, MemoryFs}
use smb_mem_lib.MemoryFs.Ghost.{all_files, remove_ghost_file, make_ghost_key}
use smb_mem_lib.MemoryFs.Ghost.Totals.{key_of, Registered, IsKeyed, all_files-Registered}
use smb_mem_lib.MemoryFs.Ghost.Accounting.{IsAccounted, remove-IsAccounted}
use smb_mem_lib.MemoryFs.Ghost.Upkeep.{is_expired, expire_one, expire, cleanup_ghost_files}

-- The file under a key, if it has not expired.
abbrev pub unexpired : ℕ → Option GhostFile → Option GhostFile
unexpired now none = none
unexpired now (some g) = if ltb (3 * 60 * 1000000000) (now - g.last_access) then none else some g

-- The file that stands under the key of `g` is `g`, or there is none.
abbrev AtMost : MemoryFs → GhostFile → Type 0
AtMost fs g = (load (key_of g) fs.ghost_files ≡ none) ⊎ Registered fs.ghost_files g

load-remove :
    (s : ℕ) (p k : Bytes) (fs : MemoryFs)
    → load k (remove_ghost_file s p fs).ghost_files
      ≡ (if bytes_eq (make_ghost_key s p) k then none else load k fs.ghost_files)
unfolding remove_ghost_file
load-remove s p k fs = elim (Option-cases (load (make_ghost_key s p) fs.ghost_files)) [
  | inl e ↦ rw (e, remove_ghost_file) (ground (arith, bytes_eq_iff (make_ghost_key s p) k))
  | inr (g, e) ↦ rw (e, remove_ghost_file) (load-delete (make_ghost_key s p) k fs.ghost_files)
]

remove_absent :
    (s : ℕ) (p : Bytes) (fs : MemoryFs)
    → load (make_ghost_key s p) fs.ghost_files ≡ none
    → remove_ghost_file s p fs ≡ fs
unfolding remove_ghost_file
remove_absent s p fs e = rw (e, remove_ghost_file)

remove-IsAccounted-AtMost :
    (fs : MemoryFs) (g : GhostFile)
    → IsAccounted fs
    → AtMost fs g
    → IsAccounted (remove_ghost_file g.session_id g.path fs)
remove-IsAccounted-AtMost fs g a (inl e) = rw (remove_absent g.session_id g.path fs e) a
remove-IsAccounted-AtMost fs g a (inr r) = remove-IsAccounted g fs a r

expire_one-IsAccounted :
    (now : ℕ) (fs : MemoryFs) (g : GhostFile)
    → IsAccounted fs
    → AtMost fs g
    → IsAccounted (expire_one now g fs)
unfolding expire_one
expire_one-IsAccounted now fs g a m = elim (Bool-cases (is_expired now g)) [
  | inl x ↦ rw (x, expire_one) (remove-IsAccounted-AtMost fs g a m)
  | inr x ↦ rw (x, expire_one) a
]

load-expire_one :
    (now : ℕ) (g : GhostFile) (fs : MemoryFs) (k : Bytes)
    → load k (expire_one now g fs).ghost_files
      ≡ (if is_expired now g && bytes_eq (key_of g) k then none else load k fs.ghost_files)
unfolding expire_one
load-expire_one now g fs k = elim (Bool-cases (is_expired now g)) [
  | inl x ↦ rw (x, expire_one) (load-remove g.session_id g.path k fs)
  | inr x ↦ rw (x, expire_one)
]

AtMost-expire_one :
    (now : ℕ) (fs : MemoryFs) (g h : GhostFile) → AtMost fs h → AtMost (expire_one now g fs) h
AtMost-expire_one now fs g h a = ground (arith, load-expire_one now g fs (key_of h))

expire-IsAccounted :
    (now : ℕ) (gs : List GhostFile) (fs : MemoryFs)
    → IsAccounted fs
    → All (AtMost fs) gs
    → IsAccounted (expire now gs fs)
unfolding expire
expire-IsAccounted now [] fs a w = a
expire-IsAccounted now (g ∷ gs) fs a w =
    expire-IsAccounted now gs (expire_one now g fs) (expire_one-IsAccounted now fs g a w.0) (
      All-mono (AtMost fs) (AtMost (expire_one now g fs)) (λ h b. AtMost-expire_one now fs g h b) gs
        w.1)

-- Whether an expired file of the list has the key.
abbrev drops : ℕ → List GhostFile → Bytes → Bool
drops now [] k = false
drops now (g ∷ gs) k = (is_expired now g && bytes_eq (key_of g) k) || drops now gs k

load-expire :
    (now : ℕ) (gs : List GhostFile) (fs : MemoryFs) (k : Bytes)
    → load k (expire now gs fs).ghost_files
      ≡ (if drops now gs k then none else load k fs.ghost_files)
unfolding expire
load-expire now [] fs k = refl
load-expire now (g ∷ gs) fs k =
    ground (arith, load-expire now gs (expire_one now g fs) k, load-expire_one now g fs k)

drops_absent :
    (now : ℕ) (m : Assoc Bytes GhostFile) (k : Bytes)
    → All IsKeyed m
    → load k m ≡ none
    → drops now (all_files m) k ≡ false
unfolding all_files load
drops_absent now [] k w h = refl
drops_absent now ((j, g) ∷ m) k w h =
    ground (arith, drops_absent now m k w.1, bytes_eq_iff j k, bytes_eq_iff (key_of g) k)

drops-all_files :
    (now : ℕ) (m : Assoc Bytes GhostFile) (k : Bytes)
    → Distinct m
    → All IsKeyed m
    → (if drops now (all_files m) k then none else load k m) ≡ unexpired now (load k m)
unfolding all_files load
drops-all_files now [] k d w = refl
drops-all_files now ((j, g) ∷ m) k d w = ground (
  arith,
  drops-all_files now m k d.1 w.1,
  drops_absent now m k w.1,
  bytes_eq_iff j k,
  bytes_eq_iff (key_of g) k,
)

-- From right counters, a tick of the cleanup leaves right counters, and under each key it leaves the
-- file that stood there if it has not expired, and none otherwise.
pub cleanup_ghost_files_lem :
    (now : ℕ) (fs : MemoryFs) (k : Bytes)
    → IsAccounted fs
    → IsAccounted (cleanup_ghost_files now fs)
      × (load k (cleanup_ghost_files now fs).ghost_files ≡ unexpired now (load k fs.ghost_files))
unfolding cleanup_ghost_files
cleanup_ghost_files_lem now fs k a = (
  expire-IsAccounted now (all_files fs.ghost_files) fs a (
      All-mono (Registered fs.ghost_files) (AtMost fs) (λ g r. inr r) (all_files fs.ghost_files)
        (all_files-Registered fs.ghost_files a.distinct a.keyed)),
  load-expire now (all_files fs.ghost_files) fs k
      ∙ drops-all_files now fs.ghost_files k a.distinct a.keyed,
)
