-- ===== src/MemoryFs/Ghost/Upkeep.antt =====
-- cleanupGhostFiles, GetGhostFileStats, SetGhostFileLimits and Shutdown.
use smb_mem_lib.Prelude.{
  ℕ, ◌+◌, ◌-◌, ◌*◌, Bool, true, none, some, List, [], ◌∷◌, length, ltb, if◌then◌else◌,
}
use smb_mem_lib.Prelude.Assoc.{Assoc, nat_key, load, store}
use smb_mem_lib.MemoryFs.Types.{GhostFile, MemoryFs, Op, ok, panic}
use smb_mem_lib.MemoryFs.Ghost.{all_files, remove_ghost_file}

-- 3 * time.Minute
abbrev pub expiration_time : ℕ
expiration_time = 3 * 60 * 1000000000

abbrev pub is_expired : ℕ → GhostFile → Bool
is_expired now g = ltb expiration_time (now - g.last_access)

-- The body of the Range, and the Range over the files that it visits.
unfoldable pub expire_one : ℕ → GhostFile → MemoryFs → MemoryFs
unfolding remove_ghost_file
expire_one now g fs = if is_expired now g then remove_ghost_file g.session_id g.path fs else fs

unfoldable pub expire : ℕ → List GhostFile → MemoryFs → MemoryFs
unfolding expire_one
expire now [] fs = fs
expire now (g ∷ gs) fs = expire now gs (expire_one now g fs)

-- One tick of cleanupGhostFiles.
unfoldable pub cleanup_ghost_files : ℕ → MemoryFs → MemoryFs
unfolding expire all_files
cleanup_ghost_files now fs = expire now (all_files fs.ghost_files) fs

pub record GhostFileStats : Type 0 where
  pub total_files : ℕ
  pub active_sessions : ℕ
  pub virtual_memory_total : ℕ
  pub virtual_memory_limit : ℕ
  pub real_memory_estimate : ℕ
  pub session_file_counts : Assoc ℕ ℕ
  pub session_virtual_memory : Assoc ℕ ℕ

-- `stats.SessionFileCounts[ghost.sessionID]++` for each file. `sessionSet` has the same keys.
unfoldable pub count_files : List GhostFile → Assoc ℕ ℕ → Assoc ℕ ℕ
count_files [] counts = counts
count_files (g ∷ gs) counts =
    count_files gs
      (store g.session_id (elim (load g.session_id counts) [ none ↦ 1 | some n ↦ n + 1 ]) counts)

unfoldable pub get_ghost_file_stats : MemoryFs → GhostFileStats
unfolding count_files all_files
get_ghost_file_stats fs =
    let files = all_files fs.ghost_files in
    let counts = count_files files [] in
    record {
      total_files = length files;
      active_sessions = length counts;
      virtual_memory_total = fs.ghost_memory_global;
      virtual_memory_limit = fs.max_ghost_memory_global;
      real_memory_estimate = length files * 330;
      session_file_counts = counts;
      session_virtual_memory = fs.ghost_memory_usage;
    }

abbrev pub set_ghost_file_limits : ℕ → ℕ → ℕ → MemoryFs → MemoryFs
set_ghost_file_limits files session global fs = record fs {
  max_ghost_files_per_session = files;
  max_ghost_memory_per_session = session;
  max_ghost_memory_global = global;
}

-- close(fs.ghostCleanupCh) panics on a channel that is closed.
abbrev pub shutdown : Op (Unit {0})
shutdown fs =
    if fs.cleanup_closed then (panic, fs) else (ok tt, record fs { cleanup_closed = true })
