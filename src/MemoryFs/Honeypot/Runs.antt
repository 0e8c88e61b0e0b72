-- ===== src/MemoryFs/Honeypot/Runs.antt =====
-- Histories in the honeypot mode.
use smb_mem_lib.Prelude.{ℕ, ◌<◌, ◌≡◌, ◌∙◌, Bool, true, false, ◌||◌, List, [], ◌∷◌}
use smb_mem_lib.MemoryFs.Types.{MemoryFs, Env}
use smb_mem_lib.MemoryFs.Calls.{Call, run, run_all}
use smb_mem_lib.MemoryFs.Honeypot.{SameNode, Held, Frozen-refl, Held-trans}
use smb_mem_lib.MemoryFs.Honeypot.Ghosts.{cleanup_ghost_files-Frozen}
use smb_mem_lib.MemoryFs.Honeypot.Methods

-- The calls that may make a symbolic link
abbrev pub makes_link : Call → Bool
makes_link (Call.make_symlink h source) = true
makes_link c = false

abbrev pub any_link : List (Env × Call) → Bool
any_link [] = false
any_link ((env, call) ∷ calls) = makes_link call || any_link calls

run-Held :
    (env : Env) (call : Call) (fs : MemoryFs)
    → fs.discard_writes ≡ true
    → Held (makes_link call) fs (run env call fs)
unfolding run
run-Held env (Call.get_attr h) fs on = Methods.get_attr-Frozen fs on h
run-Held env (Call.set_attr h a) fs on = Methods.set_attr-Frozen fs on h a
run-Held env (Call.open_file p flags mode) fs on = Methods.open_file-Frozen fs on env p flags mode
run-Held env (Call.close h) fs on = Methods.close-Frozen fs on env h
run-Held env (Call.lookup h name) fs on = Methods.lookup-Frozen fs on h name
run-Held env (Call.mkdir p mode) fs on = Methods.mkdir-Frozen fs on env p mode
run-Held env (Call.read h len offset) fs on = Methods.read-Frozen fs on h len offset
run-Held env (Call.write h buf offset) fs on = Methods.write-Frozen fs on env h buf offset
run-Held env (Call.open_dir p) fs on = Methods.open_dir-Frozen fs on env p
run-Held env (Call.read_dir h max) fs on = Methods.read_dir-Frozen fs on h max
run-Held env (Call.readlink h) fs on = Methods.readlink-Frozen fs on h
run-Held env (Call.unlink h) fs on = Methods.unlink-Frozen fs on h
run-Held env (Call.truncate h size) fs on = Methods.truncate-Frozen fs on env h size
run-Held env (Call.rename h p flags) fs on = Methods.rename-Frozen fs on env h p flags
run-Held env (Call.make_symlink h source) fs on = Methods.make_symlink-Held fs on h source
run-Held env (Call.list_xattr h) fs on = Methods.list_xattr-Frozen fs on h
run-Held env (Call.get_xattr h key b) fs on = Methods.get_xattr-Frozen fs on h key b
run-Held env (Call.set_xattr h key v) fs on = Methods.set_xattr-Frozen fs on h key v
run-Held env (Call.remove_xattr h key) fs on = Methods.remove_xattr-Frozen fs on h key
run-Held env (Call.set_operation_context c) fs on = Methods.set_operation_context-Frozen fs on env c
run-Held env Call.tick fs on = cleanup_ghost_files-Frozen env.now fs

run_all-Held :
    (calls : List (Env × Call)) (fs : MemoryFs)
    → fs.discard_writes ≡ true
    → Held (any_link calls) fs (run_all calls fs)
unfolding run_all
run_all-Held [] fs on = Frozen-refl fs
run_all-Held ((env, call) ∷ calls) fs on =
    let one = run-Held env call fs on in
    Held-trans (makes_link call) (any_link calls) fs (run env call fs) _ one
      (run_all-Held calls (run env call fs) (one.discard ∙ on))

-- In the honeypot mode no history of calls, whatever their results, ends the mode or changes a name,
-- the content, the children or the parent of a node that there was at its start, or makes a file of a
-- directory or the other way round; and where no call of the history is MakeSymlink, it does not change
-- which of these nodes are symbolic links.
pub run_all_frozen :
    (calls : List (Env × Call)) (fs : MemoryFs) (p : ℕ)
    → fs.discard_writes ≡ true
    → p < fs.next_node
    → ((run_all calls fs).discard_writes ≡ true)
      × SameNode (any_link calls) (fs.nodes p) ((run_all calls fs).nodes p)
run_all_frozen calls fs p on h =
    let held = run_all-Held calls fs on in (held.discard ∙ on, held.tree p h)
