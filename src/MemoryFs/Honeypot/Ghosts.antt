-- ===== src/MemoryFs/Honeypot/Ghosts.antt =====
-- The registry of ghost files of memoryshare/memory_fs.go, and the tree.
use smb_mem_lib.Prelude.{
  ℕ, zero, suc, List, [], ◌∷◌, Bytes, arith, ◌==◌, Bool-cases, Option-cases, inl, inr, length,
}
use smb_mem_lib.MemoryFs.Types.{GhostFile, MemoryFs, Env}
use smb_mem_lib.MemoryFs.Ghost.{
  Eviction, session_files, session_victim, evict_session, evict_from_session, global_victim,
  evict_from_all, evict_global, make_room, get_operation_context, usage, register, get_ghost_file,
  add_ghost_file, remove_ghost_file, all_files,
}
use smb_mem_lib.MemoryFs.Ghost.Upkeep.{expire, expire_one, cleanup_ghost_files}
use smb_mem_lib.MemoryFs.Honeypot.{Frozen, Frozen-refl, Frozen-trans}

remove_ghost_file-Frozen : (n : ℕ) (p : Bytes) (s : MemoryFs) → Frozen s (remove_ghost_file n p s)
unfolding remove_ghost_file
remove_ghost_file-Frozen n p s = ground arith

evict_from_session-Frozen : (g : GhostFile) (e : Eviction) → Frozen e.fs (evict_from_session g e).fs
unfolding evict_from_session
evict_from_session-Frozen g e = remove_ghost_file-Frozen g.session_id g.path e.fs

evict_session-Frozen : (fuel size : ℕ) (e : Eviction) → Frozen e.fs (evict_session fuel size e).fs
unfolding evict_session
evict_session-Frozen zero size e = Frozen-refl e.fs
evict_session-Frozen (suc fuel) size e = elim (Option-cases (session_victim size e)) [
  | inl v ↦ rw (v, evict_session) (Frozen-refl e.fs)
  | inr (g, v) ↦
      rw (v, evict_session)
        (Frozen-trans e.fs (evict_from_session g e).fs _ (evict_from_session-Frozen g e)
          (evict_session-Frozen fuel size (evict_from_session g e)))
]

evict_from_all-Frozen :
    (s : ℕ) (g : GhostFile) (e : Eviction) → Frozen e.fs (evict_from_all s g e).fs
unfolding evict_from_all
evict_from_all-Frozen s g e = elim (Bool-cases (g.session_id == s)) [
  | inl x ↦ rw x (remove_ghost_file-Frozen g.session_id g.path e.fs)
  | inr x ↦ rw x (remove_ghost_file-Frozen g.session_id g.path e.fs)
]

evict_global-Frozen : (fuel s size : ℕ) (e : Eviction) → Frozen e.fs (evict_global fuel s size e).fs
unfolding evict_global
evict_global-Frozen zero s size e = Frozen-refl e.fs
evict_global-Frozen (suc fuel) s size e = elim (Option-cases (global_victim size e)) [
  | inl v ↦ rw (v, evict_global) (Frozen-refl e.fs)
  | inr (g, v) ↦
      rw (v, evict_global)
        (Frozen-trans e.fs (evict_from_all s g e).fs _ (evict_from_all-Frozen s g e)
          (evict_global-Frozen fuel s size (evict_from_all s g e)))
]

make_room-Frozen : (s size : ℕ) (fs : MemoryFs) → Frozen fs (make_room s size fs).fs
unfolding make_room
make_room-Frozen s size fs =
    let start : Eviction = record {
      fs = fs;
      files = session_files s fs.ghost_files;
      current_memory = usage s fs.ghost_memory_usage;
    } in
    let first = evict_session (length start.files) size start in
    Frozen-trans fs first.fs _ (evict_session-Frozen (length start.files) size start)
      (evict_global-Frozen (length first.fs.ghost_files) s size first)

register-Frozen : (s : ℕ) (g : GhostFile) (e : Eviction) → Frozen e.fs (register s g e)
register-Frozen s g e = ground arith

pub add_ghost_file-Frozen :
    (env : Env) (path : Bytes) (node : ℕ) (fs : MemoryFs)
    → Frozen fs (add_ghost_file env path node fs)
unfolding add_ghost_file
add_ghost_file-Frozen env path node fs = elim (Option-cases (get_operation_context env fs)) [
  | inl c ↦ rw (c, add_ghost_file) (Frozen-refl fs)
  | inr (ctx, c) ↦
      rw (c, add_ghost_file)
        (Frozen-trans fs (make_room ctx.session_id (fs.nodes node).size fs).fs _
          (make_room-Frozen ctx.session_id (fs.nodes node).size fs)
          (register-Frozen ctx.session_id _ (make_room ctx.session_id (fs.nodes node).size fs)))
]

pub get_ghost_file-Frozen :
    (env : Env) (path : Bytes) (fs : MemoryFs) → Frozen fs (get_ghost_file env path fs).1
unfolding get_ghost_file
get_ghost_file-Frozen env path fs = ground arith

expire_one-Frozen : (now : ℕ) (g : GhostFile) (fs : MemoryFs) → Frozen fs (expire_one now g fs)
unfolding expire_one remove_ghost_file
expire_one-Frozen now g fs = ground arith

expire-Frozen : (now : ℕ) (gs : List GhostFile) (fs : MemoryFs) → Frozen fs (expire now gs fs)
unfolding expire
expire-Frozen now [] fs = Frozen-refl fs
expire-Frozen now (g ∷ gs) fs =
    Frozen-trans fs (expire_one now g fs) _ (expire_one-Frozen now g fs)
      (expire-Frozen now gs (expire_one now g fs))

pub cleanup_ghost_files-Frozen : (now : ℕ) (fs : MemoryFs) → Frozen fs (cleanup_ghost_files now fs)
unfolding cleanup_ghost_files
cleanup_ghost_files-Frozen now fs = expire-Frozen now (all_files fs.ghost_files) fs
