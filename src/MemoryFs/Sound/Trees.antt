-- ===== src/MemoryFs/Sound/Trees.antt =====
-- The operations of memoryshare/memory_fs.go that make nodes and directories: contents and sizes.
use smb_mem_lib.Prelude.{ℕ, List, [], ◌∷◌, Bytes, bytes_eq, arith, Bool-cases, inl, inr}
use smb_mem_lib.MemoryFs.Types.{
  MemoryFs, Env, Result, ok, err, panic, deadlock, ◌>>=◌, continue, Op,
}
use smb_mem_lib.MemoryFs.Paths.{
  is_root_path, child_or_new, make_dirs, get_or_create_dir_path, add_file,
}
use smb_mem_lib.GoPath.{slash, clean, dir, split, trim}
use smb_mem_lib.MemoryFs.Sound.{IsSound}

-- An operation that keeps it, whatever its result.
abbrev pub Keeps : {A : Type 0} → Op A → Type 0
Keeps m = (fs : MemoryFs) → IsSound fs → IsSound (m fs).1

pub Keeps-bind :
    {A B : Type 0} (m : Op A) (f : A → Op B) → Keeps m → ((a : A) → Keeps (f a)) → Keeps (m >>= f)
Keeps-bind m f km kf fs h = step (m fs).0 (m fs).1 (km fs h)
  where
    step : (r : Result _) (s : MemoryFs) → IsSound s → IsSound (continue r f s).1
    step (ok a) s k = kf a s k
    step (err e) s k = k
    step panic s k = k
    step deadlock s k = k

child_or_new-Keeps :
    (env : Env) (current : ℕ) (part : Bytes) → Keeps (child_or_new env current part)
unfolding child_or_new
child_or_new-Keeps env current part fs h = record {
  kept = ground (arith, h.kept);
  backed = λ q. ground (arith, h.backed q, h.backed current);
}

make_dirs-Keeps :
    (env : Env) (current : ℕ) (parts : List Bytes) → Keeps (make_dirs env current parts)
unfolding make_dirs
make_dirs-Keeps env current [] fs h = h
make_dirs-Keeps env current (part ∷ parts) fs h = elim (Bool-cases (bytes_eq part [])) [
  | inl e ↦ rw (e, make_dirs) (make_dirs-Keeps env current parts fs h)
  | inr e ↦
      rw (e, make_dirs)
        (Keeps-bind (child_or_new env current part) _ (child_or_new-Keeps env current part)
          (λ child s k. elim (Bool-cases (s.nodes child).is_dir) [
            | inl d ↦ rw d (make_dirs-Keeps env child parts s k)
            | inr d ↦ rw d k
          ])
          fs h)
]

get_or_create_dir_path-Keeps : (env : Env) (p : Bytes) → Keeps (get_or_create_dir_path env p)
unfolding get_or_create_dir_path
get_or_create_dir_path-Keeps env p fs h = elim (Bool-cases (is_root_path (clean p))) [
  | inl e ↦ rw (e, get_or_create_dir_path) h
  | inr e ↦
      rw (e, get_or_create_dir_path) (make_dirs-Keeps env fs.root (split (trim (clean p))) fs h)
]

pub add_file-Keeps :
    (env : Env) (p content : Bytes) (mode : ℕ) → Keeps (add_file env p content mode)
unfolding add_file
add_file-Keeps env p content mode fs h = elim (Bool-cases (bytes_eq (clean p) (slash ∷ []))) [
  | inl e ↦ rw (e, add_file) h
  | inr e ↦
      rw (e, add_file)
        (Keeps-bind (get_or_create_dir_path env (dir (clean p))) _
          (get_or_create_dir_path-Keeps env (dir (clean p)))
          (λ parent s k. record {
            kept = ground (arith, k.kept);
            backed = λ q. ground (arith, k.backed q, k.backed parent);
          })
          fs h)
]
