-- ===== src/MemoryFs/Sound/Runs.antt =====
-- Histories outside the honeypot mode.
use smb_mem_lib.Prelude.{ℕ, ◌≢◌, List, [], ◌∷◌, arith, Option-cases, inl, inr}
use smb_mem_lib.Prelude.Assoc.{nat_key, load}
use smb_mem_lib.MemoryFs.Types.{MemoryFs, Env, panic}
use smb_mem_lib.MemoryFs.Content.{read}
use smb_mem_lib.MemoryFs.Calls.{Call, run, run_all}
use smb_mem_lib.MemoryFs.Sound.{IsSound}
use smb_mem_lib.MemoryFs.Sound.Methods
use smb_mem_lib.MemoryFs.Sound.Others

run-IsSound : (env : Env) (call : Call) (fs : MemoryFs) → IsSound fs → IsSound (run env call fs)
unfolding run
run-IsSound env (Call.get_attr h) = Methods.get_attr-Keeps h
run-IsSound env (Call.set_attr h a) = Methods.set_attr-Keeps h a
run-IsSound env (Call.open_file p flags mode) = Others.open_file-Keeps env p flags mode
run-IsSound env (Call.close h) = Others.close-Keeps env h
run-IsSound env (Call.lookup h name) = Others.lookup-Keeps h name
run-IsSound env (Call.mkdir p mode) = Others.mkdir-Keeps env p mode
run-IsSound env (Call.read h len offset) = Others.read-Keeps h len offset
run-IsSound env (Call.write h buf offset) = Methods.write-Keeps env h buf offset
run-IsSound env (Call.open_dir p) = Others.open_dir-Keeps env p
run-IsSound env (Call.read_dir h max) = Others.read_dir-Keeps h max
run-IsSound env (Call.readlink h) = Others.readlink-Keeps h
run-IsSound env (Call.unlink h) = Others.unlink-Keeps h
run-IsSound env (Call.truncate h size) = Methods.truncate-Keeps env h size
run-IsSound env (Call.rename h p flags) = Others.rename-Keeps env h p flags
run-IsSound env (Call.make_symlink h source) = Others.make_symlink-Keeps h source
run-IsSound env (Call.list_xattr h) = Others.list_xattr-Keeps h
run-IsSound env (Call.get_xattr h key b) = Others.get_xattr-Keeps h key b
run-IsSound env (Call.set_xattr h key v) = Others.set_xattr-Keeps h key v
run-IsSound env (Call.remove_xattr h key) = Others.remove_xattr-Keeps h key
run-IsSound env (Call.set_operation_context c) = Others.set_operation_context-Keeps env c
run-IsSound env Call.tick = Others.cleanup_ghost_files-Keeps env.now

-- Outside the honeypot mode, from a state in which the content of each node is as long as its size, every
-- history of calls, whatever their results, leads to such a state.
pub run_all-IsSound :
    (calls : List (Env × Call)) (fs : MemoryFs) → IsSound fs → IsSound (run_all calls fs)
unfolding run_all
run_all-IsSound [] fs s = s
run_all-IsSound ((env, call) ∷ calls) fs s =
    run_all-IsSound calls (run env call fs) (run-IsSound env call fs s)

read-ne-panic : (h len offset : ℕ) (fs : MemoryFs) → IsSound fs → (read h len offset fs).0 ≢ panic
unfolding read
read-ne-panic h len offset fs s e = elim (Option-cases (load h fs.open_files)) [
  | inl o ↦ ground (arith, o)
  | inr (f, o) ↦ ground (arith, o, s.backed f.node)
]

-- Outside the honeypot mode, from a state in which the content of each node is as long as its size, no
-- Read panics after any history of calls, at whatever handle, length and offset.
pub read-run_all :
    (calls : List (Env × Call)) (fs : MemoryFs) (h len offset : ℕ)
    → IsSound fs
    → (read h len offset (run_all calls fs)).0 ≢ panic
read-run_all calls fs h len offset s =
    read-ne-panic h len offset (run_all calls fs) (run_all-IsSound calls fs s)
