-- ===== src/MemoryFs/Reopen.antt =====
-- Open, Close and getGhostFile of memoryshare/memory_fs.go on files that are closed in the honeypot mode.
use Prim.Native.Nat.{bit_and}
use smb_mem_lib.Prelude.{
  ℕ, ◌+◌, ◌^◌, ◌<◌, ◌≡◌, true, none, some, Bytes, arith, ◌==◌, All, Option-cases, inl, inr,
}
use smb_mem_lib.Prelude.Assoc.{bytes_key, nat_key, load, load-store}
use smb_mem_lib.Vfs.{OperationContext}
use smb_mem_lib.MemoryFs.Types.{MemoryFs, OpenMemoryFile, GhostFile, Env, ok}
use smb_mem_lib.MemoryFs.Paths.{resolve_path}
use smb_mem_lib.MemoryFs.Ghost.{
  make_ghost_key, all_files, get_operation_context, get_ghost_file, add_ghost_file,
}
use smb_mem_lib.MemoryFs.Ghost.Keys.{make_ghost_key_injective}
use smb_mem_lib.MemoryFs.Ghost.Totals.{total, IsKeyed, IsKeyed-load}
use smb_mem_lib.MemoryFs.Ghost.Accounting.{IsAccounted}
use smb_mem_lib.MemoryFs.Ghost.Rounds.{Limits, HasLimits}
use smb_mem_lib.MemoryFs.Ghost.Registration.{ghost_of, add_ghost_file-registers}
use smb_mem_lib.MemoryFs.Extras.{set_operation_context}
use smb_mem_lib.MemoryFs.Handles.{keep_ghost, settle, close, open_ghost, open_file}

-- In a registry whose files stand under their own keys, with uint64 session ids: what getGhostFile finds
-- belongs to the session of the caller and has the path that was asked for.
pub get_ghost_file_isolated :
    (env : Env) (path : Bytes) (fs : MemoryFs) (ctx : OperationContext) (g : GhostFile)
    → get_operation_context env fs ≡ some ctx
    → All IsKeyed fs.ghost_files
    → ctx.session_id < 2 ^ 64
    → g.session_id < 2 ^ 64
    → (get_ghost_file env path fs).0 ≡ some g
    → (g.session_id ≡ ctx.session_id) × (g.path ≡ path)
unfolding get_ghost_file
get_ghost_file_isolated env path fs ctx g c w hc hg e =
    elim (Option-cases (load (make_ghost_key ctx.session_id path) fs.ghost_files)) [
      | inl none_there ↦ ground (arith, c, none_there)
      | inr (old, there) ↦
          let key = IsKeyed-load (make_ghost_key ctx.session_id path) old fs.ghost_files w there in
          ground (
            arith,
            c,
            there,
            make_ghost_key_injective ctx.session_id old.session_id path old.path hc,
            key,
          )
    ]

get_ghost_file_absent :
    (env : Env) (path : Bytes) (fs : MemoryFs) (ctx : OperationContext)
    → get_operation_context env fs ≡ some ctx
    → load (make_ghost_key ctx.session_id path) fs.ghost_files ≡ none
    → get_ghost_file env path fs ≡ (none, fs)
unfolding get_ghost_file
get_ghost_file_absent env path fs ctx c e = ground (arith, c, e)

close-eq :
    (env : Env) (h : ℕ) (fs : MemoryFs) (f : OpenMemoryFile) (ctx : OperationContext)
    → fs.discard_writes ≡ true
    → load h fs.open_files ≡ some f
    → get_operation_context env fs ≡ some ctx
    → load (make_ghost_key ctx.session_id f.path) fs.ghost_files ≡ none
    → (close env h fs).1.ghost_files ≡ (add_ghost_file env f.path f.node fs).ghost_files
unfolding close settle keep_ghost
close-eq env h fs f ctx on opened c fresh =
    ground (arith, get_ghost_file_absent env f.path fs ctx c fresh)

-- The open file of a ghost file's node.
abbrev pub reopened : Env → Bytes → ℕ → MemoryFs → OpenMemoryFile
reopened env path node fs = record {
  node = node;
  handle = env.random;
  path = path;
  is_dir = (fs.nodes node).is_dir;
  dir_pos = 0;
}

reopen :
    (env : Env) (path : Bytes) (flags mode : ℕ) (fs : MemoryFs) (ctx : OperationContext)
    (g : GhostFile)
    → resolve_path path fs ≡ none
    → (bit_and flags 0x40 == 0) ≡ true
    → get_operation_context env fs ≡ some ctx
    → load (make_ghost_key ctx.session_id path) fs.ghost_files ≡ some g
    → ((open_file env path flags mode fs).0 ≡ ok env.random)
      × (load env.random (open_file env path flags mode fs).1.open_files
          ≡ some (reopened env path g.node fs))
unfolding open_file open_ghost get_ghost_file
reopen env path flags mode fs ctx g gone plain c there = (
  ground (arith, there),
  ground
      (arith, there, load-store env.random env.random (reopened env path g.node fs) fs.open_files),
)

-- The state in which the server opens a file after a Close: it has set the context of its goroutine.
abbrev pub after_close : Env → ℕ → Env → OperationContext → MemoryFs → MemoryFs
after_close env h env' ctx fs = set_operation_context env' (some ctx) (close env h fs).1

module _ (env env' : Env) (h : ℕ) (fs : MemoryFs) (f : OpenMemoryFile) (ctx ctx' : OperationContext)
    (l : Limits) (flags mode : ℕ) (on : fs.discard_writes ≡ true)
    (opened : load h fs.open_files ≡ some f) (c : get_operation_context env fs ≡ some ctx)
    (a : IsAccounted fs) (limits : HasLimits l fs)
    (fresh : load (make_ghost_key ctx.session_id f.path) fs.ghost_files ≡ none)
    (small : total (all_files fs.ghost_files) + (fs.nodes f.node).size < 2 ^ 63)
    (gone : resolve_path f.path (after_close env h env' ctx' fs) ≡ none)
    (plain : (bit_and flags 0x40 == 0) ≡ true) where
  registry_after_close :
      (after_close env h env' ctx' fs).ghost_files
      ≡ (add_ghost_file env f.path f.node fs).ghost_files
  unfolding set_operation_context
  registry_after_close = close-eq env h fs f ctx on opened c fresh

  context_after_close : get_operation_context env' (after_close env h env' ctx' fs) ≡ some ctx'
  unfolding set_operation_context
  context_after_close =
      ground (arith, load-store env'.goroutine env'.goroutine ctx' (close env h fs).1.context_map)

  -- In the honeypot mode, when the handle of a path that is not in the tree has been closed, with right
  -- counters and no ghost file of the session and path before, an Open of the path by the same session,
  -- not asking for a creation, succeeds and gives the same node again.
  pub open_file-close :
      ctx'.session_id ≡ ctx.session_id
      → ((open_file env' f.path flags mode (after_close env h env' ctx' fs)).0 ≡ ok env'.random)
        × (load env'.random
              (open_file env' f.path flags mode (after_close env h env' ctx' fs)).1.open_files
            ≡ some (reopened env' f.path f.node (after_close env h env' ctx' fs)))
  open_file-close same =
      reopen env' f.path flags mode (after_close env h env' ctx' fs) ctx'
        (ghost_of env ctx f.path f.node fs) gone plain context_after_close
        (rw (registry_after_close, same)
          (add_ghost_file-registers env ctx f.path f.node fs l c a limits fresh small))
