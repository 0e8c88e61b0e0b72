-- ===== src/MemoryFs/Tests/Honeypots.antt =====
-- The theorems on the honeypot mode and its ghost files, applied to a small tree.
use smb_mem_lib.Prelude.{
  false, ℕ, ◌*◌, ◌≤◌, ◌≡◌, ◌⊎◌, ◌↔◌, refl, true, some, [], ◌∷◌, length, arith, Bytes, bytes_eq,
}
use smb_mem_lib.Prelude.Assoc.{load, store, bytes_key, nat_key}
use smb_mem_lib.GoPath.{clean, trim}
use smb_mem_lib.MemoryFs.Types.{MemoryFs, ok, new_memory_fs}
use smb_mem_lib.MemoryFs.Paths.{resolve_path, walk}
use smb_mem_lib.MemoryFs.Ghost.{
  make_ghost_key, session_files, usage, add_ghost_file, get_ghost_file, all_files, make_room,
}
use smb_mem_lib.MemoryFs.Ghost.Keys.{make_ghost_key_iff}
use smb_mem_lib.MemoryFs.Ghost.Accounting.{IsAccounted}
use smb_mem_lib.MemoryFs.Ghost.Rounds.{Limits, HasLimits}
use smb_mem_lib.MemoryFs.Ghost.Loops.{IsRoomy, make_room-IsRoomy}
use smb_mem_lib.MemoryFs.Ghost.Registration.{add_ghost_file-IsAccounted, add_ghost_file_limits}
use smb_mem_lib.MemoryFs.Ghost.Upkeep.{cleanup_ghost_files}
use smb_mem_lib.MemoryFs.Ghost.Expiry.{unexpired, cleanup_ghost_files_lem}
use smb_mem_lib.MemoryFs.Handles.{open_file, close}
use smb_mem_lib.MemoryFs.Reopen.{get_ghost_file_isolated, open_file-close, after_close, reopened}
use smb_mem_lib.MemoryFs.Extras.{set_operation_context}
use smb_mem_lib.MemoryFs.Calls.{Call, run_all}
use smb_mem_lib.MemoryFs.Honeypot.{SameNode}
use smb_mem_lib.MemoryFs.Honeypot.Runs.{run_all_frozen}
use smb_mem_lib.MemoryFs.Tests.{env, later_env, ctx, trapped, honeypot, open_x}

abbrev path_x : Bytes
path_x = b'/' ∷ b'x' ∷ []

abbrev limits : Limits
limits = record { files = 3; session = 10 * 1024 * 1024; global = 1024 * 1024 * 1024 }

trapped-HasLimits : HasLimits limits trapped
unfolding new_memory_fs
trapped-HasLimits = record {
  files = refl;
  session = refl;
  global = refl;
  files_small = omega arith;
  session_small = omega arith;
  global_small = omega arith;
}

trapped-IsAccounted : IsAccounted trapped
unfolding new_memory_fs session_files all_files load
trapped-IsAccounted = record {
  distinct = tt;
  keyed = tt;
  sessions = λ s. refl;
  all = refl;
  small = omega arith;
}

-- The registry with /x, as addGhostFile leaves it.
abbrev haunted : MemoryFs
haunted = add_ghost_file env path_x 4 trapped

haunted-IsAccounted : IsAccounted haunted
unfolding new_memory_fs load all_files
haunted-IsAccounted =
    add_ghost_file-IsAccounted env ctx path_x 4 trapped limits refl trapped-IsAccounted
      trapped-HasLimits refl (omega arith)

run_all_frozen_example :
    ((run_all ((env, Call.write 9 (1 ∷ []) 5) ∷ (env, Call.unlink 9) ∷ []) honeypot).discard_writes
      ≡ true)
    × SameNode false
        (honeypot.nodes 2)
        ((run_all ((env, Call.write 9 (1 ∷ []) 5) ∷ (env, Call.unlink 9) ∷ []) honeypot).nodes 2)
unfolding new_memory_fs
run_all_frozen_example =
    run_all_frozen ((env, Call.write 9 (1 ∷ []) 5) ∷ (env, Call.unlink 9) ∷ []) honeypot 2 refl
      (omega arith)

make_room-IsRoomy_example : IsRoomy limits (make_ghost_key 12 path_x) 12 2 (make_room 12 2 trapped)
unfolding new_memory_fs load all_files
make_room-IsRoomy_example =
    make_room-IsRoomy limits (make_ghost_key 12 path_x) 12 2 trapped trapped-IsAccounted
      trapped-HasLimits refl (omega arith)

add_ghost_file-IsAccounted_example : IsAccounted haunted
unfolding new_memory_fs load all_files
add_ghost_file-IsAccounted_example =
    add_ghost_file-IsAccounted env ctx path_x 4 trapped limits refl trapped-IsAccounted
      trapped-HasLimits refl (omega arith)

add_ghost_file_limits_example :
    (length (session_files 12 haunted.ghost_files) ≤ 3
      ⊎ (length (session_files 12 haunted.ghost_files) ≡ 1))
    × ((usage 12 haunted.ghost_memory_usage ≤ 10 * 1024 * 1024)
        ⊎ (length (session_files 12 haunted.ghost_files) ≡ 1))
    × ((haunted.ghost_memory_global ≤ 1024 * 1024 * 1024) ⊎ (haunted.ghost_memory_global ≡ 2))
unfolding new_memory_fs load all_files
add_ghost_file_limits_example =
    add_ghost_file_limits env ctx path_x 4 trapped limits refl trapped-IsAccounted trapped-HasLimits
      refl (omega arith)

cleanup_ghost_files_lem_example :
    IsAccounted (cleanup_ghost_files 9 trapped)
    × (load [] (cleanup_ghost_files 9 trapped).ghost_files
        ≡ unexpired 9 (load [] trapped.ghost_files))
cleanup_ghost_files_lem_example = cleanup_ghost_files_lem 9 trapped [] trapped-IsAccounted

make_ghost_key_iff_example :
    (make_ghost_key 12 path_x ≡ make_ghost_key 1 (b'2' ∷ b':' ∷ path_x))
    ↔ (◌≡◌ {A = ℕ} 12 1 × (path_x ≡ b'2' ∷ b':' ∷ path_x))
make_ghost_key_iff_example =
    make_ghost_key_iff 12 1 path_x (b'2' ∷ b':' ∷ path_x) (omega arith) (omega arith)

get_ghost_file_isolated_example : ◌≡◌ {A = ℕ} 12 12 × (path_x ≡ path_x)
unfolding new_memory_fs load all_files get_ghost_file add_ghost_file store bytes_eq
get_ghost_file_isolated_example =
    get_ghost_file_isolated env path_x haunted ctx
      (record { node = 4; path = path_x; session_id = 12; size = 2; last_access = 5 }) refl
      haunted-IsAccounted.keyed (omega arith) (omega arith) refl

open_file-close_example :
    ((open_file later_env path_x 0 0 (after_close env 7 later_env ctx trapped)).0 ≡ ok 78)
    × (load 78
          (open_file later_env path_x 0 0 (after_close env 7 later_env ctx trapped)).1.open_files
        ≡ some (reopened later_env path_x 4 (after_close env 7 later_env ctx trapped)))
unfolding new_memory_fs load all_files resolve_path bytes_eq clean walk trim set_operation_context
    close
open_file-close_example =
    open_file-close env later_env 7 trapped open_x ctx ctx limits 0 0 refl refl refl
      trapped-IsAccounted trapped-HasLimits refl (omega arith) refl refl refl
