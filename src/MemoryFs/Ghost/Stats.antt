-- ===== src/MemoryFs/Ghost/Stats.antt =====
-- What GetGhostFileStats counts.
use smb_mem_lib.Prelude.{
  ℕ, ◌+◌, ◌≡◌, none, some, [], ◌∷◌, length, Bytes, arith, ◌==◌, if◌then◌else◌,
}
use smb_mem_lib.Prelude.Assoc.{Assoc, nat_key, load, store, load-store}
use smb_mem_lib.MemoryFs.Types.{GhostFile, MemoryFs}
use smb_mem_lib.MemoryFs.Ghost.{all_files, session_files, usage}
use smb_mem_lib.MemoryFs.Ghost.Totals.{total}
use smb_mem_lib.MemoryFs.Ghost.Accounting.{IsAccounted}
use smb_mem_lib.MemoryFs.Ghost.Upkeep.{count_files, get_ghost_file_stats}

-- `counts[s]++`
usage-bump :
    (s t : ℕ) (counts : Assoc ℕ ℕ)
    → usage s (store t (elim (load t counts) [ none ↦ 1 | some n ↦ n + 1 ]) counts)
      ≡ (if t == s then usage s counts + 1 else usage s counts)
usage-bump s t counts =
    ground (arith, load-store t s (elim (load t counts) [ none ↦ 1 | some n ↦ n + 1 ]) counts)

usage-count_files :
    (s : ℕ) (m : Assoc Bytes GhostFile) (counts : Assoc ℕ ℕ)
    → usage s (count_files (all_files m) counts) ≡ usage s counts + length (session_files s m)
unfolding count_files all_files session_files
usage-count_files s [] counts = omega arith
usage-count_files s ((k, g) ∷ m) counts =
    let bumped : Assoc ℕ ℕ =
      store g.session_id (elim (load g.session_id counts) [ none ↦ 1 | some n ↦ n + 1 ]) counts in
    ground (arith, usage-count_files s m bumped, usage-bump s g.session_id counts)

counts-session_files :
    (s : ℕ) (m : Assoc Bytes GhostFile)
    → usage s (count_files (all_files m) []) ≡ length (session_files s m)
unfolding load
counts-session_files s m = omega (arith, usage-count_files s m [])

-- GetGhostFileStats counts for each session the registered files of that session. From right counters
-- its sizes, for each session and in all, are the sums of the sizes of the registered files.
get_ghost_file_stats_lem :
    (fs : MemoryFs) (s : ℕ)
    → IsAccounted fs
    → (usage s (get_ghost_file_stats fs).session_file_counts
        ≡ length (session_files s fs.ghost_files))
      × (usage s (get_ghost_file_stats fs).session_virtual_memory
          ≡ total (session_files s fs.ghost_files))
      × ((get_ghost_file_stats fs).virtual_memory_total ≡ total (all_files fs.ghost_files))
unfolding get_ghost_file_stats
get_ghost_file_stats_lem fs s a = (counts-session_files s fs.ghost_files, a.sessions s, a.all)
