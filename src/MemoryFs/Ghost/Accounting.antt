-- ===== src/MemoryFs/Ghost/Accounting.antt =====
-- The counters of memory of memoryshare/memory_fs.go and the registry, with removeGhostFile.
use smb_mem_lib.Prelude.{
  ℕ, ◌^◌, ◌<◌, ◌≡◌, All, arith, ◌==◌, ◌≤◌, ◌-◌, Option-cases, inl, inr, if◌then◌else◌,
}
use smb_mem_lib.Prelude.Assoc.{
  Assoc, nat_key, bytes_key, load, delete, Distinct, Distinct-delete, load-delete, load-store,
}
use smb_mem_lib.Prelude.Words.{sub64}
use smb_mem_lib.MemoryFs.Types.{GhostFile, MemoryFs}
use smb_mem_lib.MemoryFs.Ghost.{lower_usage, all_files, session_files, usage, remove_ghost_file}
use smb_mem_lib.MemoryFs.Ghost.Totals.{
  total, IsKeyed, key_of, Registered, total-delete, session_total-delete, session_total-le-total,
  IsKeyed-delete,
}

-- One file for a key, each under its own key; the counter of each session and the global counter
-- are the sums of the sizes, and these stay below 2 ^ 63, the range of int64.
pub record IsAccounted (fs : MemoryFs) : Type 0 where
  pub distinct : Distinct fs.ghost_files
  pub keyed : All IsKeyed fs.ghost_files
  pub sessions : (s : ℕ) → usage s fs.ghost_memory_usage ≡ total (session_files s fs.ghost_files)
  pub all : fs.ghost_memory_global ≡ total (all_files fs.ghost_files)
  pub small : total (all_files fs.ghost_files) < 2 ^ 63

usage-lower_usage :
    (s t size : ℕ) (m : Assoc ℕ ℕ)
    → size ≤ usage s m
    → usage s m < 2 ^ 63
    → usage t (lower_usage s size m) ≡ (if s == t then usage s m - size else usage t m)
usage-lower_usage s t size m h k = elim (Option-cases (load s m)) [
  | inl e ↦ rw (e, lower_usage) (ground arith)
  | inr (n, e) ↦
      rw (e, lower_usage) (ground (arith, load-delete s t m, load-store s t (sub64 n size) m))
]

module _ (g : GhostFile) (fs : MemoryFs) (a : IsAccounted fs)
    (r : Registered fs.ghost_files g) where
  abbrev pub removed : MemoryFs
  removed = record fs {
    ghost_files = delete (key_of g) fs.ghost_files;
    ghost_memory_usage = lower_usage g.session_id g.size fs.ghost_memory_usage;
    ghost_memory_global = sub64 fs.ghost_memory_global g.size;
  }

  pub remove-eq-removed : remove_ghost_file g.session_id g.path fs ≡ removed
  unfolding remove_ghost_file
  remove-eq-removed = rw (r, remove_ghost_file)

  removed_sessions :
      (s : ℕ) → usage s removed.ghost_memory_usage ≡ total (session_files s removed.ghost_files)
  removed_sessions s = ground (
    arith,
    a.distinct,
    a.small,
    a.sessions s,
    a.sessions g.session_id,
    session_total-delete s (key_of g) g fs.ghost_files,
    session_total-delete g.session_id (key_of g) g fs.ghost_files,
    session_total-le-total g.session_id fs.ghost_files,
    usage-lower_usage g.session_id s g.size fs.ghost_memory_usage,
  )

  -- Removing a registered file keeps the counters right.
  pub remove-IsAccounted : IsAccounted (remove_ghost_file g.session_id g.path fs)
  remove-IsAccounted = rw remove-eq-removed (record {
    distinct = Distinct-delete (key_of g) fs.ghost_files a.distinct;
    keyed = IsKeyed-delete (key_of g) fs.ghost_files a.keyed;
    sessions = removed_sessions;
    all = ground (arith, a.all, a.small, a.distinct, total-delete (key_of g) g fs.ghost_files);
    small = ground (arith, a.small, a.distinct, total-delete (key_of g) g fs.ghost_files);
  })
