-- ===== src/MemoryFs/Ghost/Totals.antt =====
-- The sizes of the registered ghost files: their sums, and what a removal takes from them.
use smb_mem_lib.Prelude.{
  ℕ, ◌+◌, ◌≤◌, ◌≡◌, none, some, List, [], ◌∷◌, Bytes, bytes_eq_iff, length, All, All-mono, arith,
  ◌==◌, ==_iff, ltb, Bool-cases, inl, inr, subst, if◌then◌else◌,
}
use smb_mem_lib.Prelude.Assoc.{Assoc, bytes_key, load, delete, Distinct, delete_absent}
use smb_mem_lib.MemoryFs.Types.{GhostFile}
use smb_mem_lib.MemoryFs.Ghost.{make_ghost_key, all_files, session_files, drop_ghost, oldest}

abbrev pub total : List GhostFile → ℕ
total [] = 0
total (g ∷ gs) = g.size + total gs

-- The key under which a file stands is made of its session and its path.
abbrev pub IsKeyed : Bytes × GhostFile → Type 0
IsKeyed e = e.0 ≡ make_ghost_key e.1.session_id e.1.path

abbrev pub key_of : GhostFile → Bytes
key_of g = make_ghost_key g.session_id g.path

-- `g` stands in the registry, under its key.
abbrev pub Registered : Assoc Bytes GhostFile → GhostFile → Type 0
Registered m g = load (key_of g) m ≡ some g

pub total-delete :
    (k : Bytes) (g : GhostFile) (m : Assoc Bytes GhostFile)
    → Distinct m
    → load k m ≡ some g
    → total (all_files m) ≡ total (all_files (delete k m)) + g.size
unfolding all_files delete load
total-delete k g [] d h = cc
total-delete k g ((j, v) ∷ m) d h =
    ground (arith, total-delete k g m d.1, delete_absent k m, bytes_eq_iff j k)

pub session_total-delete :
    (s : ℕ) (k : Bytes) (g : GhostFile) (m : Assoc Bytes GhostFile)
    → Distinct m
    → load k m ≡ some g
    → total (session_files s m)
      ≡ total (session_files s (delete k m)) + (if g.session_id == s then g.size else 0)
unfolding session_files delete load
session_total-delete s k g [] d h = cc
session_total-delete s k g ((j, v) ∷ m) d h =
    ground (arith, session_total-delete s k g m d.1, delete_absent k m, bytes_eq_iff j k)

pub session_total-le-total :
    (s : ℕ) (m : Assoc Bytes GhostFile) → total (session_files s m) ≤ total (all_files m)
unfolding session_files all_files
session_total-le-total s [] = omega arith
session_total-le-total s ((k, g) ∷ m) = ground (arith, session_total-le-total s m)

pub length-all_files-delete :
    (k : Bytes) (g : GhostFile) (m : Assoc Bytes GhostFile)
    → Distinct m
    → load k m ≡ some g
    → length m ≡ length (delete k m) + 1
unfolding delete load
length-all_files-delete k g [] d h = cc
length-all_files-delete k g ((j, v) ∷ m) d h =
    ground (arith, length-all_files-delete k g m d.1, delete_absent k m, bytes_eq_iff j k)

-- Removing a file of session `s` from the registry removes it from the working list, and removing
-- a file of another session leaves the working list.
pub session_files-delete :
    (s : ℕ) (g : GhostFile) (m : Assoc Bytes GhostFile)
    → Distinct m
    → All IsKeyed m
    → Registered m g
    → session_files s (delete (key_of g) m)
      ≡ (if g.session_id == s then drop_ghost g (session_files s m) else session_files s m)
unfolding session_files delete load drop_ghost
session_files-delete s g [] d w h = cc
session_files-delete s g ((j, v) ∷ m) d w h = ground (
  arith,
  session_files-delete s g m d.1 w.1,
  delete_absent (key_of g) m,
  bytes_eq_iff j (key_of g),
  bytes_eq_iff v.path g.path,
)

All-delete :
    (P : Bytes × GhostFile → Type 0) (k : Bytes) (m : Assoc Bytes GhostFile)
    → All P m
    → All P (delete k m)
unfolding delete
All-delete P k [] h = h
All-delete P k ((j, v) ∷ m) h = ground (arith, All-delete P k m h.1, h.0)

pub IsKeyed-delete :
    (k : Bytes) (m : Assoc Bytes GhostFile) → All IsKeyed m → All IsKeyed (delete k m)
IsKeyed-delete k m h = All-delete IsKeyed k m h

pub IsKeyed-load :
    (k : Bytes) (g : GhostFile) (m : Assoc Bytes GhostFile)
    → All IsKeyed m
    → load k m ≡ some g
    → k ≡ key_of g
unfolding load
IsKeyed-load k g [] w h = cc
IsKeyed-load k g ((j, v) ∷ m) w h = ground (arith, IsKeyed-load k g m w.1, bytes_eq_iff j k)

pub session_length-delete :
    (s : ℕ) (k : Bytes) (g : GhostFile) (m : Assoc Bytes GhostFile)
    → Distinct m
    → load k m ≡ some g
    → length (session_files s m)
      ≡ length (session_files s (delete k m)) + (if g.session_id == s then 1 else 0)
unfolding session_files delete load
session_length-delete s k g [] d h = cc
session_length-delete s k g ((j, v) ∷ m) d h =
    ground (arith, session_length-delete s k g m d.1, delete_absent k m, bytes_eq_iff j k)

Registered-cons :
    (k : Bytes) (v : GhostFile) (m : Assoc Bytes GhostFile) (g : GhostFile)
    → load k m ≡ none
    → Registered m g
    → Registered ((k, v) ∷ m) g
unfolding load
Registered-cons k v m g d r = ground (arith, bytes_eq_iff k (key_of g))

pub all_files-Registered :
    (m : Assoc Bytes GhostFile) → Distinct m → All IsKeyed m → All (Registered m) (all_files m)
unfolding all_files load
all_files-Registered [] d w = tt
all_files-Registered ((k, v) ∷ m) d w = (
  ground (arith, bytes_eq_iff k (key_of v)),
  All-mono (Registered m) (Registered ((k, v) ∷ m)) (λ g r. Registered-cons k v m g d.0 r)
      (all_files m) (all_files-Registered m d.1 w.1),
)

-- `g` is a registered file of session `s`.
abbrev pub Belongs : ℕ → Assoc Bytes GhostFile → GhostFile → Type 0
Belongs s m g = Registered m g × (g.session_id ≡ s)

pub session_files-Belongs :
    (s : ℕ) (m : Assoc Bytes GhostFile)
    → Distinct m
    → All IsKeyed m
    → All (Belongs s m) (session_files s m)
unfolding session_files load
session_files-Belongs s [] d w = tt
session_files-Belongs s ((k, v) ∷ m) d w =
    let rest : All (Belongs s ((k, v) ∷ m)) (session_files s m) =
      All-mono (Belongs s m) (Belongs s ((k, v) ∷ m))
        (λ g r. (Registered-cons k v m g d.0 r.0, r.1)) (session_files s m)
        (session_files-Belongs s m d.1 w.1) in
    elim (Bool-cases (v.session_id == s)) [
      | inl e ↦
          rw e ((ground (arith, bytes_eq_iff k (key_of v)), (==_iff v.session_id s).0 e), rest)
      | inr e ↦ rw e rest
    ]

-- What holds of every file of a list holds of the oldest.
pub oldest_keeps :
    (P : GhostFile → Type 0) (b : GhostFile) (gs : List GhostFile) {g : GhostFile}
    → P b
    → All P gs
    → oldest (some b) gs ≡ some g
    → P g
unfolding oldest
oldest_keeps P b [] {g} h w e = let q : b ≡ g = cc in subst P q h
oldest_keeps P b (x ∷ gs) h w e = elim (Bool-cases (ltb x.last_access b.last_access)) [
  | inl t ↦ oldest_keeps P x gs w.0 w.1 (rw t at e)
  | inr f ↦ oldest_keeps P b gs h w.1 (rw f at e)
]

pub oldest_keeps_none :
    (P : GhostFile → Type 0) (gs : List GhostFile) {g : GhostFile}
    → All P gs
    → oldest none gs ≡ some g
    → P g
unfolding oldest
oldest_keeps_none P [] w e = cc
oldest_keeps_none P (x ∷ gs) w e = oldest_keeps P x gs w.0 w.1 e
