-- ===== src/MemoryFs/Ghost/Rounds.antt =====
-- The rounds of the two eviction loops of addGhostFile in memoryshare/memory_fs.go.
use smb_mem_lib.Prelude.{
  ℕ, ◌+◌, ◌^◌, ◌≤◌, ◌<◌, ◌≡◌, none, length, arith, ◌==◌, inl, inr, Bool-cases, ==_iff, Bytes,
  if◌then◌else◌,
}
use smb_mem_lib.Prelude.Assoc.{bytes_key, load, load-delete}
use smb_mem_lib.MemoryFs.Types.{GhostFile, MemoryFs}
use smb_mem_lib.MemoryFs.Ghost.{
  all_files, session_files, drop_ghost, Eviction, remove_ghost_file, evict_from_session,
  evict_from_all,
}
use smb_mem_lib.MemoryFs.Ghost.Totals.{
  total, key_of, Registered, total-delete, session_total-delete, session_total-le-total,
  session_length-delete, session_files-delete, length-all_files-delete,
}
use smb_mem_lib.MemoryFs.Ghost.Accounting.{IsAccounted, remove-IsAccounted, remove-eq-removed}

-- The limits as numbers, for a configuration that is not negative.
pub record Limits : Type 0 where
  pub files : ℕ
  pub session : ℕ
  pub global : ℕ

pub record HasLimits (l : Limits) (fs : MemoryFs) : Type 0 where
  pub files : fs.max_ghost_files_per_session ≡ l.files
  pub session : fs.max_ghost_memory_per_session ≡ l.session
  pub global : fs.max_ghost_memory_global ≡ l.global
  pub files_small : l.files < 2 ^ 63
  pub session_small : l.session < 2 ^ 63
  pub global_small : l.global < 2 ^ 63

-- The variables of addGhostFile agree with the registry, which has no file under the new key.
pub record IsTracked (l : Limits) (key : Bytes) (s : ℕ) (e : Eviction) : Type 0 where
  pub limits : HasLimits l e.fs
  pub accounted : IsAccounted e.fs
  pub files : e.files ≡ session_files s e.fs.ghost_files
  pub current : e.current_memory ≡ total e.files
  pub fresh : load key e.fs.ghost_files ≡ none

module _ (l : Limits) (key : Bytes) (s : ℕ) (g : GhostFile) (e : Eviction) (t : IsTracked l key s e)
    (r : Registered e.fs.ghost_files g) where
  remove-HasLimits : HasLimits l (remove_ghost_file g.session_id g.path e.fs)
  remove-HasLimits = rw (remove-eq-removed g e.fs t.accounted r) (record {
    files = t.limits.files;
    session = t.limits.session;
    global = t.limits.global;
    files_small = t.limits.files_small;
    session_small = t.limits.session_small;
    global_small = t.limits.global_small;
  })

  pub length-remove :
      length e.fs.ghost_files ≡ length (remove_ghost_file g.session_id g.path e.fs).ghost_files + 1
  length-remove =
      rw (remove-eq-removed g e.fs t.accounted r)
        (length-all_files-delete (key_of g) g e.fs.ghost_files t.accounted.distinct r)

  files-remove :
      session_files s (remove_ghost_file g.session_id g.path e.fs).ghost_files
      ≡ (if g.session_id == s then drop_ghost g e.files else e.files)
  files-remove =
      rw (remove-eq-removed g e.fs t.accounted r, t.files)
        (session_files-delete s g e.fs.ghost_files t.accounted.distinct t.accounted.keyed r)

  pub total-remove :
      total e.files
      ≡ total (session_files s (remove_ghost_file g.session_id g.path e.fs).ghost_files)
        + (if g.session_id == s then g.size else 0)
  total-remove =
      rw (remove-eq-removed g e.fs t.accounted r, t.files)
        (session_total-delete s (key_of g) g e.fs.ghost_files t.accounted.distinct r)

  pub length_files-remove :
      length e.files
      ≡ length (session_files s (remove_ghost_file g.session_id g.path e.fs).ghost_files)
        + (if g.session_id == s then 1 else 0)
  length_files-remove =
      rw (remove-eq-removed g e.fs t.accounted r, t.files)
        (session_length-delete s (key_of g) g e.fs.ghost_files t.accounted.distinct r)

  total_files_small : total e.files < 2 ^ 63
  total_files_small =
      rw t.files (omega (arith, t.accounted.small, session_total-le-total s e.fs.ghost_files))

  fresh-remove : load key (remove_ghost_file g.session_id g.path e.fs).ghost_files ≡ none
  fresh-remove =
      rw (remove-eq-removed g e.fs t.accounted r)
        (ground (arith, load-delete (key_of g) key e.fs.ghost_files, t.fresh))

  total_all-remove :
      total (all_files (remove_ghost_file g.session_id g.path e.fs).ghost_files)
      ≤ total (all_files e.fs.ghost_files)
  total_all-remove =
      rw (remove-eq-removed g e.fs t.accounted r)
        (omega (arith, total-delete (key_of g) g e.fs.ghost_files t.accounted.distinct r))

  pub evict_from_all-IsTracked : IsTracked l key s (evict_from_all s g e)
  unfolding evict_from_all
  evict_from_all-IsTracked = elim (Bool-cases (g.session_id == s)) [
    | inl p ↦ rw p (record {
      limits = remove-HasLimits;
      accounted = remove-IsAccounted g e.fs t.accounted r;
      files = ground (arith, files-remove);
      current = ground (arith, files-remove, total-remove, total_files_small, t.current);
      fresh = fresh-remove;
    })
    | inr p ↦ rw p (record {
      limits = remove-HasLimits;
      accounted = remove-IsAccounted g e.fs t.accounted r;
      files = ground (arith, files-remove);
      current = t.current;
      fresh = fresh-remove;
    })
  ]

  pub evict_from_session-eq : g.session_id ≡ s → evict_from_session g e ≡ evict_from_all s g e
  unfolding evict_from_session evict_from_all
  evict_from_session-eq p = rw ((==_iff g.session_id s).1 p)

  -- What one round takes away.
  pub evict_from_all-shrinks :
      (length e.fs.ghost_files ≡ length (evict_from_all s g e).fs.ghost_files + 1)
      × (total (all_files (evict_from_all s g e).fs.ghost_files)
          ≤ total (all_files e.fs.ghost_files))
      × (length e.files
          ≡ length (evict_from_all s g e).files + (if g.session_id == s then 1 else 0))
      × ((evict_from_all s g e).current_memory ≤ e.current_memory)
  unfolding evict_from_all
  evict_from_all-shrinks = ground (
    arith, length-remove, total_all-remove, files-remove, length_files-remove, total_files_small,
    t.current, total-remove, evict_from_all-IsTracked,
  )
