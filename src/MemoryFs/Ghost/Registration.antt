-- ===== src/MemoryFs/Ghost/Registration.antt =====
-- addGhostFile as a whole: the counters, the limits and the new file.
use smb_mem_lib.Prelude.{
  ℕ, ◌+◌, ◌^◌, ◌≤◌, ◌<◌, ◌≡◌, refl, ◌⊎◌, none, some, length, Bytes, arith, ◌==◌, ◌∷◌, if◌then◌else◌,
}
use smb_mem_lib.Prelude.Assoc.{
  Assoc, bytes_key, nat_key, load, store, delete_absent, load-store, same_refl,
}
use smb_mem_lib.Prelude.Words.{add64}
use smb_mem_lib.Vfs.{OperationContext}
use smb_mem_lib.MemoryFs.Types.{GhostFile, MemoryFs, Env}
use smb_mem_lib.MemoryFs.Ghost.{
  make_ghost_key, all_files, session_files, usage, Eviction, register, add_ghost_file, make_room,
  get_operation_context,
}
use smb_mem_lib.MemoryFs.Ghost.Totals.{total, session_total-le-total}
use smb_mem_lib.MemoryFs.Ghost.Accounting.{IsAccounted}
use smb_mem_lib.MemoryFs.Ghost.Rounds.{Limits, HasLimits}
use smb_mem_lib.MemoryFs.Ghost.Loops.{IsRoomy, make_room-IsRoomy}

session_files-cons :
    (s : ℕ) (k : Bytes) (g : GhostFile) (m : Assoc Bytes GhostFile)
    → session_files s ((k, g) ∷ m)
      ≡ (if g.session_id == s then g ∷ session_files s m else session_files s m)
unfolding session_files
session_files-cons s k g m = refl

all_files-cons :
    (k : Bytes) (g : GhostFile) (m : Assoc Bytes GhostFile)
    → all_files ((k, g) ∷ m) ≡ g ∷ all_files m
unfolding all_files
all_files-cons k g m = refl

module _ (l : Limits) (g : GhostFile) (e : Eviction)
    (r : IsRoomy l (make_ghost_key g.session_id g.path) g.session_id g.size e) where
  abbrev key : Bytes
  key = make_ghost_key g.session_id g.path

  store-eq-cons : store key g e.fs.ghost_files ≡ (key, g) ∷ e.fs.ghost_files
  unfolding store
  store-eq-cons = rw (delete_absent key e.fs.ghost_files r.tracked.fresh)

  pub register-IsAccounted : IsAccounted (register g.session_id g e)
  register-IsAccounted = rw store-eq-cons (record {
    distinct = (r.tracked.fresh, r.tracked.accounted.distinct);
    keyed = (refl, r.tracked.accounted.keyed);
    sessions = λ s. ground (
      arith,
      load-store g.session_id s (add64 e.current_memory g.size) e.fs.ghost_memory_usage,
      session_files-cons s key g e.fs.ghost_files,
      r.tracked.accounted.sessions s,
      r.tracked.files,
      r.tracked.current,
      r.small,
      session_total-le-total s e.fs.ghost_files,
    );
    all = ground (arith, r.tracked.accounted.all, r.small, all_files-cons key g e.fs.ghost_files);
    small = ground (arith, r.small, all_files-cons key g e.fs.ghost_files);
  })

  -- The limits after the registration, with the new file counted.
  pub register_limits :
      (length (session_files g.session_id (register g.session_id g e).ghost_files) ≤ l.files
        ⊎ (length (session_files g.session_id (register g.session_id g e).ghost_files) ≡ 1))
      × ((usage g.session_id (register g.session_id g e).ghost_memory_usage ≤ l.session)
          ⊎ (length (session_files g.session_id (register g.session_id g e).ghost_files) ≡ 1))
      × (((register g.session_id g e).ghost_memory_global ≤ l.global)
          ⊎ ((register g.session_id g e).ghost_memory_global ≡ g.size))
  register_limits = rw store-eq-cons (
      ground (
        arith,
        load-store g.session_id g.session_id (add64 e.current_memory g.size)
            e.fs.ghost_memory_usage,
        session_files-cons g.session_id key g e.fs.ghost_files,
        session_total-le-total g.session_id e.fs.ghost_files,
        r.session,
        r.global,
        r.tracked.files,
        r.tracked.current,
        r.small,
      ))

  pub load-register : load key (register g.session_id g e).ghost_files ≡ some g
  load-register = ground (arith, load-store key key g e.fs.ghost_files, same_refl key)

-- The file that addGhostFile registers.
abbrev pub ghost_of : Env → OperationContext → Bytes → ℕ → MemoryFs → GhostFile
ghost_of env ctx path node fs = record {
  node = node;
  path = path;
  session_id = ctx.session_id;
  size = (fs.nodes node).size;
  last_access = env.now;
}

module _ (env : Env) (ctx : OperationContext) (path : Bytes) (node : ℕ) (fs : MemoryFs) (l : Limits)
    (c : get_operation_context env fs ≡ some ctx) (a : IsAccounted fs) (limits : HasLimits l fs)
    (fresh : load (make_ghost_key ctx.session_id path) fs.ghost_files ≡ none)
    (small : total (all_files fs.ghost_files) + (fs.nodes node).size < 2 ^ 63) where
  abbrev room : Eviction
  room = make_room ctx.session_id (fs.nodes node).size fs

  add_ghost_file-eq :
      add_ghost_file env path node fs ≡ register ctx.session_id (ghost_of env ctx path node fs) room
  unfolding add_ghost_file
  add_ghost_file-eq = rw (c, add_ghost_file)

  room-IsRoomy :
      IsRoomy l (make_ghost_key ctx.session_id path) ctx.session_id (fs.nodes node).size room
  room-IsRoomy =
      make_room-IsRoomy l (make_ghost_key ctx.session_id path) ctx.session_id (fs.nodes node).size
        fs a limits fresh small

  -- In a context, from right counters, with no file of this session and path registered yet, with the
  -- sizes below 2 ^ 63 in sum and limits that are not negative, addGhostFile leaves right counters: for each session and in all the
  -- counter is the sum of the sizes of the registered files.
  pub add_ghost_file-IsAccounted : IsAccounted (add_ghost_file env path node fs)
  add_ghost_file-IsAccounted =
      rw add_ghost_file-eq
        (register-IsAccounted l (ghost_of env ctx path node fs) room room-IsRoomy)

  -- In a context, from right counters, with no file of this session and path registered yet, with the
  -- sizes below 2 ^ 63 in sum and limits that are not negative: after addGhostFile the session has at
  -- most its limit of files, or the new one alone; its memory is within the limit of a session, or the
  -- new file is its only one; the memory in all is within the global limit, or is the new file's size.
  pub add_ghost_file_limits :
      (length (session_files ctx.session_id (add_ghost_file env path node fs).ghost_files) ≤ l.files
        ⊎ (length (session_files ctx.session_id (add_ghost_file env path node fs).ghost_files) ≡ 1))
      × ((usage ctx.session_id (add_ghost_file env path node fs).ghost_memory_usage ≤ l.session)
          ⊎ (length (session_files ctx.session_id (add_ghost_file env path node fs).ghost_files)
              ≡ 1))
      × (((add_ghost_file env path node fs).ghost_memory_global ≤ l.global)
          ⊎ ((add_ghost_file env path node fs).ghost_memory_global ≡ (fs.nodes node).size))
  add_ghost_file_limits =
      rw add_ghost_file-eq (register_limits l (ghost_of env ctx path node fs) room room-IsRoomy)

  -- In a context, from right counters, with no file of this session and path registered yet, with the
  -- sizes below 2 ^ 63 in sum and limits that are not negative: after addGhostFile the new file, with
  -- its node, its size and the time, is registered under its session and path.
  pub add_ghost_file-registers :
      load (make_ghost_key ctx.session_id path) (add_ghost_file env path node fs).ghost_files
      ≡ some (ghost_of env ctx path node fs)
  add_ghost_file-registers =
      rw add_ghost_file-eq (load-register l (ghost_of env ctx path node fs) room room-IsRoomy)
