-- ===== src/MemoryFs/Ghost.antt =====
-- The ghost files of the honeypot mode: makeGhostKey, addGhostFile, getGhostFile, removeGhostFile,
-- cleanupGhostFiles, GetGhostFileStats and SetGhostFileLimits.
-- A *GhostFile is told from another in the registry by its session and its path, which make its key.
pub mod Keys
pub mod Totals
pub mod Accounting
pub mod Rounds
pub mod Loops
pub mod Registration
pub mod Upkeep
pub mod Expiry
pub mod Stats
use Prim.Native.Nat.{◌/◌, ◌%◌}
use smb_mem_lib.Prelude.{
  ℕ, zero, suc, ◌+◌, ◌-◌, ◌*◌, Bool, true, false, ◌&&◌, ◌||◌, Option, none, some, List, [], ◌∷◌,
  Bytes, bytes_eq, length, ltb, ◌==◌, if◌then◌else◌,
}
use smb_mem_lib.Prelude.Assoc.{Assoc, bytes_key, nat_key, load, store, delete}
use smb_mem_lib.Prelude.Words.{add64, sub64, slt, sle, length_ge}
use smb_mem_lib.Vfs.{OperationContext}
use smb_mem_lib.MemoryFs.Types.{GhostFile, MemoryFs, Env}

-- The decimal digits of `n` in front of `tail`; twenty are enough for a uint64.
decimal_before : ℕ → ℕ → Bytes → Bytes
decimal_before zero n tail = tail
decimal_before (suc fuel) n tail =
    let more = decimal_before fuel (n / 10) ((b'0' + n % 10) ∷ tail) in
    if ltb n 10 then (b'0' + n) ∷ tail else more

-- makeGhostKey: fmt.Sprintf("%d:%s", sessionID, path)
unfoldable pub make_ghost_key : ℕ → Bytes → Bytes
unfolding decimal_before
make_ghost_key session path = decimal_before 20 session (b':' ∷ path)

-- getOperationContext
abbrev pub get_operation_context : Env → MemoryFs → Option OperationContext
get_operation_context env fs = load env.goroutine fs.context_map

-- The values of the registry, in the order of `Range`, and those of one session.
unfoldable pub all_files : Assoc Bytes GhostFile → List GhostFile
all_files [] = []
all_files ((k, g) ∷ m) = g ∷ all_files m

unfoldable pub session_files : ℕ → Assoc Bytes GhostFile → List GhostFile
session_files s [] = []
session_files s ((k, g) ∷ m) =
    let rest = session_files s m in if g.session_id == s then g ∷ rest else rest

-- v, ok := fs.ghostMemoryUsage.Load(session), with 0 where there is none
abbrev pub usage : ℕ → Assoc ℕ ℕ → ℕ
usage s m = elim (load s m) [ none ↦ 0 | some n ↦ n ]

-- `newMem <= 0` deletes the entry of the session.
abbrev pub lower_usage : ℕ → ℕ → Assoc ℕ ℕ → Assoc ℕ ℕ
lower_usage session size m = elim (load session m) [
  | none ↦ m
  | some current ↦
      let new_mem = sub64 current size in
      if sle new_mem 0 then delete session m else store session new_mem m
]

unfoldable pub remove_ghost_file : ℕ → Bytes → MemoryFs → MemoryFs
remove_ghost_file session path fs =
    let key = make_ghost_key session path in
    elim (load key fs.ghost_files) [
      | none ↦ fs
      | some ghost ↦ record fs {
        ghost_files = delete key fs.ghost_files;
        ghost_memory_usage = lower_usage session ghost.size fs.ghost_memory_usage;
        ghost_memory_global = sub64 fs.ghost_memory_global ghost.size;
      }
    ]

-- The loop over `g.lastAccess.Before(oldest.lastAccess)`.
unfoldable pub oldest : Option GhostFile → List GhostFile → Option GhostFile
oldest best [] = best
oldest none (g ∷ gs) = oldest (some g) gs
oldest (some b) (g ∷ gs) = oldest (some (if ltb g.last_access b.last_access then g else b)) gs

abbrev pub same_ghost : GhostFile → GhostFile → Bool
same_ghost a b = a.session_id == b.session_id && bytes_eq a.path b.path

-- The loop that takes `oldest` out of the working list.
unfoldable pub drop_ghost : GhostFile → List GhostFile → List GhostFile
drop_ghost g [] = []
drop_ghost g (h ∷ hs) = let rest = drop_ghost g hs in if same_ghost h g then hs else h ∷ rest

-- The variables of addGhostFile: the file system, `sessionGhostFiles` and `currentMemory`.
pub record Eviction : Type 0 where
  pub fs : MemoryFs
  pub files : List GhostFile
  pub current_memory : ℕ

-- STEP 1. The test of the loop, with the oldest file of the session.
unfoldable pub session_victim : ℕ → Eviction → Option GhostFile
session_victim size e =
    if length_ge (length e.files) e.fs.max_ghost_files_per_session
      || slt e.fs.max_ghost_memory_per_session (add64 e.current_memory size)
        && ltb 0 (length e.files)
    then oldest none e.files
    else none

unfoldable pub evict_from_session : GhostFile → Eviction → Eviction
unfolding remove_ghost_file drop_ghost
evict_from_session g e = record {
  fs = remove_ghost_file g.session_id g.path e.fs;
  files = drop_ghost g e.files;
  current_memory = sub64 e.current_memory g.size;
}

-- The fuel is the length of the working list, of which each round takes one file.
unfoldable pub evict_session : ℕ → ℕ → Eviction → Eviction
unfolding session_victim evict_from_session oldest
evict_session zero size e = e
evict_session (suc fuel) size e = elim (session_victim size e) [
  | none ↦ e
  | some g ↦ evict_session fuel size (evict_from_session g e)
]

-- STEP 2. The test of the loop, with the oldest file of all.
unfoldable pub global_victim : ℕ → Eviction → Option GhostFile
global_victim size e =
    if slt e.fs.max_ghost_memory_global (add64 e.fs.ghost_memory_global size)
      && slt 0 e.fs.ghost_memory_global
    then oldest none (all_files e.fs.ghost_files)
    else none

unfoldable pub evict_from_all : ℕ → GhostFile → Eviction → Eviction
unfolding remove_ghost_file drop_ghost
evict_from_all session g e =
    if g.session_id == session
    then record {
      fs = remove_ghost_file g.session_id g.path e.fs;
      files = drop_ghost g e.files;
      current_memory = sub64 e.current_memory g.size;
    }
    else record e { fs = remove_ghost_file g.session_id g.path e.fs }

-- The fuel is the number of files in the registry.
unfoldable pub evict_global : ℕ → ℕ → ℕ → Eviction → Eviction
unfolding global_victim evict_from_all oldest all_files
evict_global zero session size e = e
evict_global (suc fuel) session size e = elim (global_victim size e) [
  | none ↦ e
  | some g ↦ evict_global fuel session size (evict_from_all session g e)
]

-- Both loops of addGhostFile.
unfoldable pub make_room : ℕ → ℕ → MemoryFs → Eviction
unfolding evict_session evict_global session_files
make_room session size fs =
    let files = session_files session fs.ghost_files in
    let start : Eviction = record {
      fs = fs;
      files = files;
      current_memory = usage session fs.ghost_memory_usage;
    } in
    let first = evict_session (length files) size start in
    evict_global (length first.fs.ghost_files) session size first

abbrev pub register : ℕ → GhostFile → Eviction → MemoryFs
register session ghost e = record (e.fs) {
  ghost_files = store (make_ghost_key session ghost.path) ghost e.fs.ghost_files;
  ghost_memory_usage = store session (add64 e.current_memory ghost.size) e.fs.ghost_memory_usage;
  ghost_memory_global = add64 e.fs.ghost_memory_global ghost.size;
}

-- addGhostFile. `int64(node.size)` has the bit pattern of the size.
unfoldable pub add_ghost_file : Env → Bytes → ℕ → MemoryFs → MemoryFs
unfolding make_room make_ghost_key
add_ghost_file env filepath node fs = elim (get_operation_context env fs) [
  | none ↦ fs
  | some ctx ↦
      let size = (fs.nodes node).size in
      register ctx.session_id
        (record {
          node = node;
          path = filepath;
          session_id = ctx.session_id;
          size = size;
          last_access = env.now;
        })
        (make_room ctx.session_id size fs)
]

-- getGhostFile, which moves the time of the last access.
unfoldable pub get_ghost_file : Env → Bytes → MemoryFs → Option GhostFile × MemoryFs
unfolding make_ghost_key
get_ghost_file env filepath fs = elim (get_operation_context env fs) [
  | none ↦ (none, fs)
  | some ctx ↦
      let key = make_ghost_key ctx.session_id filepath in
      (elim (load key fs.ghost_files) [
        | none ↦ (none, fs)
        | some ghost ↦
            let touched : GhostFile = record ghost { last_access = env.now } in
            (some touched, record fs { ghost_files = store key touched fs.ghost_files })
      ])
]
