-- ===== src/MemoryFs/Ghost/Loops.antt =====
-- The eviction loops of addGhostFile in memoryshare/memory_fs.go as a whole: how they end.
use smb_mem_lib.Prelude.{
  ℕ, zero, suc, ◌+◌, ◌^◌, ◌≤◌, ◌<◌, ◌≡◌, ◌≢◌, refl, ap, ◌⊎◌, none, some, length, arith,
  Option-cases, inl, inr, [], ◌∷◌, List, Bytes, if◌then◌else◌, sym, ltb,
}
use native.Mathlib.Nat.{le_refl}
use smb_mem_lib.Prelude.Assoc.{Assoc, bytes_key, load}
use smb_mem_lib.MemoryFs.Types.{GhostFile, MemoryFs}
use smb_mem_lib.MemoryFs.Ghost.{
  all_files, session_files, oldest, Eviction, session_victim, evict_from_session, evict_session,
  global_victim, evict_from_all, evict_global, usage, make_room,
}
use smb_mem_lib.MemoryFs.Ghost.Totals.{
  total, Registered, Belongs, session_total-le-total, all_files-Registered, session_files-Belongs,
  oldest_keeps_none,
}
use smb_mem_lib.MemoryFs.Ghost.Accounting.{IsAccounted}
use smb_mem_lib.MemoryFs.Ghost.Rounds.{
  Limits, HasLimits, IsTracked, evict_from_all-IsTracked, evict_from_session-eq,
  evict_from_all-shrinks,
}

oldest-ne-none : (b : GhostFile) (gs : List GhostFile) → oldest (some b) gs ≢ none
unfolding oldest
oldest-ne-none b [] e = cc
oldest-ne-none b (x ∷ gs) e = oldest-ne-none (if ltb x.last_access b.last_access then x else b) gs e

session_victim-Belongs :
    (l : Limits) (key : Bytes) (s size : ℕ) (e : Eviction) (g : GhostFile)
    → IsTracked l key s e
    → session_victim size e ≡ some g
    → Belongs s e.fs.ghost_files g
unfolding session_victim
session_victim-Belongs l key s size e g t v =
    oldest_keeps_none (Belongs s e.fs.ghost_files) e.files
      (rw t.files (session_files-Belongs s e.fs.ghost_files t.accounted.distinct t.accounted.keyed))
      (ground (arith, v))

global_victim-Registered :
    (l : Limits) (key : Bytes) (s size : ℕ) (e : Eviction) (g : GhostFile)
    → IsTracked l key s e
    → global_victim size e ≡ some g
    → Registered e.fs.ghost_files g
unfolding global_victim
global_victim-Registered l key s size e g t v =
    oldest_keeps_none (Registered e.fs.ghost_files) (all_files e.fs.ghost_files)
      (all_files-Registered e.fs.ghost_files t.accounted.distinct t.accounted.keyed)
      (ground (arith, v))

-- The session is empty, or a file of this size fits its two limits.
abbrev pub FitsSession : Limits → ℕ → Eviction → Type 0
FitsSession l size e =
    (length e.files ≡ 0) ⊎ ((length e.files < l.files) × (e.current_memory + size ≤ l.session))

session_victim-none :
    (l : Limits) (key : Bytes) (s size : ℕ) (e : Eviction) (files : List GhostFile)
    → files ≡ e.files
    → IsTracked l key s e
    → total (all_files e.fs.ghost_files) + size < 2 ^ 63
    → session_victim size e ≡ none
    → FitsSession l size e
unfolding session_victim oldest
session_victim-none l key s size e [] p t h v = inl (rw (sym p))
session_victim-none l key s size e (x ∷ xs) p t h v =
    ground (arith, oldest-ne-none x xs, session_total-le-total s e.fs.ghost_files)

-- The global limit leaves room for a file of this size, or there is no memory in use.
abbrev pub FitsGlobal : Limits → ℕ → Eviction → Type 0
FitsGlobal l size e = (e.fs.ghost_memory_global ≡ 0) ⊎ (e.fs.ghost_memory_global + size ≤ l.global)

global_victim-none :
    (l : Limits) (key : Bytes) (s size : ℕ) (e : Eviction) (files : List GhostFile)
    → files ≡ all_files e.fs.ghost_files
    → IsTracked l key s e
    → total (all_files e.fs.ghost_files) + size < 2 ^ 63
    → global_victim size e ≡ none
    → FitsGlobal l size e
unfolding global_victim oldest
global_victim-none l key s size e [] p t h v = ground (arith, t.accounted.all)
global_victim-none l key s size e (x ∷ xs) p t h v =
    ground (arith, oldest-ne-none x xs, t.accounted.all, t.accounted.small)

-- What a loop hands over when it has ended by its test.
abbrev SessionEnd : Limits → Bytes → ℕ → ℕ → Eviction → Type 0
SessionEnd l key s size e =
    IsTracked l key s e
    × (total (all_files e.fs.ghost_files) + size < 2 ^ 63)
    × (session_victim size e ≡ none)

evict_session_step :
    (fuel size : ℕ) (e : Eviction) (g : GhostFile)
    → session_victim size e ≡ some g
    → evict_session (suc fuel) size e ≡ evict_session fuel size (evict_from_session g e)
unfolding evict_session
evict_session_step fuel size e g v = rw (v, evict_session)

evict_session_stop :
    (fuel size : ℕ) (e : Eviction) → session_victim size e ≡ none → evict_session fuel size e ≡ e
unfolding evict_session
evict_session_stop zero size e v = refl
evict_session_stop (suc fuel) size e v = rw (v, evict_session)

no_files :
    (size : ℕ) (e : Eviction) (files : List GhostFile)
    → files ≡ e.files
    → length e.files ≤ 0
    → session_victim size e ≡ none
unfolding session_victim oldest
no_files size e [] p h = ground (arith, p)
no_files size e (x ∷ xs) p h = absurd (omega (arith, ap (λ (q : List GhostFile). length q) p))

evict_session_ends :
    (l : Limits) (key : Bytes) (s size fuel : ℕ) (e : Eviction)
    → IsTracked l key s e
    → total (all_files e.fs.ghost_files) + size < 2 ^ 63
    → length e.files ≤ fuel
    → SessionEnd l key s size (evict_session fuel size e)
evict_session_ends l key s size zero e t h k =
    let v : session_victim size e ≡ none = no_files size e e.files refl k in
    rw (evict_session_stop zero size e v) (t, h, v)
evict_session_ends l key s size (suc fuel) e t h k = elim (Option-cases (session_victim size e)) [
  | inl v ↦ rw (evict_session_stop (suc fuel) size e v) (t, h, v)
  | inr (g, v) ↦
      let (r, q) = session_victim-Belongs l key s size e g t v in
      rw (evict_session_step fuel size e g v, evict_from_session-eq l key s g e t r q)
        (evict_session_ends l key s size fuel (evict_from_all s g e)
          (evict_from_all-IsTracked l key s g e t r)
          (omega (arith, evict_from_all-shrinks l key s g e t r))
          (ground (arith, evict_from_all-shrinks l key s g e t r)))
]

-- What addGhostFile has reached when it has left both loops.
pub record IsRoomy (l : Limits) (key : Bytes) (s size : ℕ) (e : Eviction) : Type 0 where
  pub tracked : IsTracked l key s e
  pub small : total (all_files e.fs.ghost_files) + size < 2 ^ 63
  pub session : FitsSession l size e
  pub global : FitsGlobal l size e

evict_global_step :
    (fuel s size : ℕ) (e : Eviction) (g : GhostFile)
    → global_victim size e ≡ some g
    → evict_global (suc fuel) s size e ≡ evict_global fuel s size (evict_from_all s g e)
unfolding evict_global
evict_global_step fuel s size e g v = rw (v, evict_global)

evict_global_stop :
    (fuel s size : ℕ) (e : Eviction) → global_victim size e ≡ none → evict_global fuel s size e ≡ e
unfolding evict_global
evict_global_stop zero s size e v = refl
evict_global_stop (suc fuel) s size e v = rw (v, evict_global)

empty_registry :
    (size : ℕ) (e : Eviction) (m : Assoc Bytes GhostFile)
    → m ≡ e.fs.ghost_files
    → length e.fs.ghost_files ≤ 0
    → global_victim size e ≡ none
unfolding global_victim oldest all_files
empty_registry size e [] p h = ground (arith, p)
empty_registry size e (x ∷ xs) p h =
    absurd (omega (arith, ap (λ (q : Assoc Bytes GhostFile). length q) p))

module _ (l : Limits) (key : Bytes) (s size : ℕ) where
  evict_global_ends :
      (fuel : ℕ) (e : Eviction)
      → IsTracked l key s e
      → total (all_files e.fs.ghost_files) + size < 2 ^ 63
      → FitsSession l size e
      → length e.fs.ghost_files ≤ fuel
      → IsRoomy l key s size (evict_global fuel s size e)
  evict_global_ends zero e t h f k =
      let v : global_victim size e ≡ none = empty_registry size e e.fs.ghost_files refl k in
      rw (evict_global_stop zero s size e v) (record {
        tracked = t;
        small = h;
        session = f;
        global = global_victim-none l key s size e (all_files e.fs.ghost_files) refl t h v;
      })
  evict_global_ends (suc fuel) e t h f k = elim (Option-cases (global_victim size e)) [
    | inl v ↦ rw (evict_global_stop (suc fuel) s size e v) (record {
      tracked = t;
      small = h;
      session = f;
      global = global_victim-none l key s size e (all_files e.fs.ghost_files) refl t h v;
    })
    | inr (g, v) ↦
        let r = global_victim-Registered l key s size e g t v in
        let d = evict_from_all-shrinks l key s g e t r in
        rw (evict_global_step fuel s size e g v) (
          evict_global_ends fuel (evict_from_all s g e) (evict_from_all-IsTracked l key s g e t r)
            (omega (arith, d)) (ground (arith, d)) (omega (arith, d)))
  ]

  -- From right counters, with no file under the new key yet, sizes below 2 ^ 63 in sum and limits that
  -- are not negative: both loops of addGhostFile end because their tests fail, the counters are right
  -- then, and the loops' variables agree with the registry.
  pub make_room-IsRoomy :
      (fs : MemoryFs)
      → IsAccounted fs
      → HasLimits l fs
      → load key fs.ghost_files ≡ none
      → total (all_files fs.ghost_files) + size < 2 ^ 63
      → IsRoomy l key s size (make_room s size fs)
  unfolding make_room
  make_room-IsRoomy fs a limits fresh h =
      let start : Eviction = record {
        fs = fs;
        files = session_files s fs.ghost_files;
        current_memory = usage s fs.ghost_memory_usage;
      } in
      let t : IsTracked l key s start = record {
        limits = limits;
        accounted = a;
        files = refl;
        current = a.sessions s;
        fresh = fresh;
      } in
      let first = evict_session_ends l key s size (length start.files) start t h (le_refl _) in
      let e = evict_session (length start.files) size start in
      evict_global_ends (length e.fs.ghost_files) e first.0 first.1
        (session_victim-none l key s size e e.files refl first.0 first.1 first.2) (le_refl _)
