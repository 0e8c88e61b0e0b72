-- ===== src/MemoryFs/Paths/Walks.antt =====
-- resolvePath after getOrCreateDirPath, in memoryshare/memory_fs.go.
use smb_mem_lib.Prelude.{
  ℕ, ◌≤◌, ◌<◌, ◌≡◌, ◌∙◌, ap, refl, true, false, none, some, List, [], ◌∷◌, Bytes, bytes_eq,
  bytes_eq_iff, arith, Bool-cases, inl, inr,
}
use smb_mem_lib.Prelude.Assoc.{Assoc, bytes_key, load, load-store, same_refl}
use smb_mem_lib.GoPath.{split, trim, clean}
use smb_mem_lib.MemoryFs.Types.{
  MemoryNode, MemoryFs, Env, Op, Result, ok, err, panic, deadlock, ◌>>=◌, continue,
  component_not_directory,
}
use smb_mem_lib.MemoryFs.Paths.{
  child_of, is_root_path, walk, resolve_path, child_or_new, make_dirs, get_or_create_dir_path,
}

bind_ok :
    {A B : Type 0} (m : Op A) (f : A → Op B) (s t : MemoryFs) (b : B)
    → (m >>= f) s ≡ (ok b, t)
    → (a : A) × (u : MemoryFs) × (m s ≡ (ok a, u)) × (f a u ≡ (ok b, t))
bind_ok {A} {B} m f s t b e = go (m s).0 (m s).1 refl e
  where
    go :
        (r : Result A) (u : MemoryFs)
        → m s ≡ (r, u)
        → continue r f u ≡ (ok b, t)
        → (a : A) × (v : MemoryFs) × (m s ≡ (ok a, v)) × (f a v ≡ (ok b, t))
    go (ok a) u p q = (a, u, p, q)
    go (err x) u p q = absurd (cc)
    go panic u p q = absurd (cc)
    go deadlock u p q = absurd (cc)

load_nil : (name : Bytes) → load {V = ℕ} name [] ≡ none
unfolding load
load_nil name = refl

-- The children of the nodes in use are in use.
pub record IsClosed (fs : MemoryFs) : Type 0 where
  pub root : fs.root < fs.next_node
  pub child :
      (q : ℕ) (name : Bytes) (c : ℕ)
      → q < fs.next_node
      → child_of (fs.nodes q) name ≡ some c
      → c < fs.next_node

-- Every name of a node in use stays.
record Extends (s t : MemoryFs) : Type 0 where
  root : t.root ≡ s.root
  grows : s.next_node ≤ t.next_node
  child :
      (q : ℕ) (name : Bytes) (c : ℕ)
      → q < s.next_node
      → child_of (s.nodes q) name ≡ some c
      → child_of (t.nodes q) name ≡ some c

Extends-trans : (s t u : MemoryFs) → Extends s t → Extends t u → Extends s u
Extends-trans s t u a b = record {
  root = b.root ∙ a.root;
  grows = omega arith;
  child = λ q name c h e. b.child q name c (omega arith) (a.child q name c h e);
}

-- What the map of a node has under a name after a store.
abbrev pub kids : MemoryNode → Assoc Bytes ℕ
kids n = elim n.children [ none ↦ [] | some m ↦ m ]

module _ (env : Env) (current : ℕ) (part : Bytes) (fs fs' : MemoryFs) (child : ℕ)
    (closed : IsClosed fs) (here : current < fs.next_node)
    (e : child_or_new env current part fs ≡ (ok child, fs')) where
  child_or_new-child : child_of (fs'.nodes current) part ≡ some child
  unfolding child_or_new
  child_or_new-child =
      ground (arith, e, load-store part part fs.next_node (kids (fs.nodes current)), same_refl part)

  child_or_new-Extends : Extends fs fs'
  unfolding child_or_new
  child_or_new-Extends = record {
    root = ground (arith, e);
    grows = ground (arith, e);
    child = λ q name c h p. ground (
      arith,
      e,
      p,
      bytes_eq_iff part name,
      h,
      load-store part name fs.next_node (kids (fs.nodes current)),
    );
  }

  child_or_new-lt : child < fs'.next_node
  unfolding child_or_new
  child_or_new-lt = ground (arith, e, closed.child current part child here)

  child_or_new-IsClosed : IsClosed fs'
  unfolding child_or_new
  child_or_new-IsClosed = record {
    root = ground (arith, e, closed.root);
    child = λ q name c h p. ground (
      arith,
      e,
      p,
      closed.child q name c,
      bytes_eq_iff part name,
      h,
      load-store part name fs.next_node (kids (fs.nodes current)),
      load_nil name,
    );
  }

-- What the loop of getOrCreateDirPath leaves.
record Reaches (s t : MemoryFs) (current : ℕ) (parts : List Bytes) (p : ℕ) : Type 0 where
  closed : IsClosed t
  extends : Extends s t
  end : p < t.next_node
  walks : walk t current parts ≡ some p

walk-skip :
    (fs : MemoryFs) (current : ℕ) (part : Bytes) (parts : List Bytes)
    → bytes_eq part [] ≡ true
    → walk fs current (part ∷ parts) ≡ walk fs current parts
unfolding walk
walk-skip fs current part parts e = rw (e, walk)

walk-child :
    (fs : MemoryFs) (current : ℕ) (part : Bytes) (parts : List Bytes) (child : ℕ)
    → bytes_eq part [] ≡ false
    → child_of (fs.nodes current) part ≡ some child
    → walk fs current (part ∷ parts) ≡ walk fs child parts
unfolding walk
walk-child fs current part parts child e c = rw (e, c, walk)

-- The round on a part, after the child has been found or made.
abbrev descend : Env → List Bytes → ℕ → Op ℕ
descend env parts child s = elim (s.nodes child).is_dir [
  | true ↦ make_dirs env child parts s
  | false ↦ (err component_not_directory, s)
]

make_dirs-step :
    (env : Env) (current : ℕ) (part : Bytes) (parts : List Bytes) (fs : MemoryFs)
    → bytes_eq part [] ≡ false
    → make_dirs env current (part ∷ parts) fs
      ≡ (child_or_new env current part >>= descend env parts) fs
unfolding make_dirs
make_dirs-step env current part parts fs e = rw (e, make_dirs)

make_dirs-skip :
    (env : Env) (current : ℕ) (part : Bytes) (parts : List Bytes) (fs : MemoryFs)
    → bytes_eq part [] ≡ true
    → make_dirs env current (part ∷ parts) fs ≡ make_dirs env current parts fs
unfolding make_dirs
make_dirs-skip env current part parts fs e = rw (e, make_dirs)

descend_ok :
    (env : Env) (parts : List Bytes) (child : ℕ) (s t : MemoryFs) (p : ℕ)
    → descend env parts child s ≡ (ok p, t)
    → make_dirs env child parts s ≡ (ok p, t)
descend_ok env parts child s t p e = ground (arith, e)

make_dirs-nil :
    (env : Env) (current p : ℕ) (fs fs' : MemoryFs)
    → make_dirs env current [] fs ≡ (ok p, fs')
    → (fs ≡ fs') × (current ≡ p)
unfolding make_dirs
make_dirs-nil env current p fs fs' e = (cc, cc)

Reaches-nil : (fs : MemoryFs) (p : ℕ) → IsClosed fs → p < fs.next_node → Reaches fs fs p [] p
unfolding walk
Reaches-nil fs p closed here = record {
  closed = closed;
  extends = record { root = refl; grows = omega arith; child = λ q name c h e. e };
  end = here;
  walks = refl;
}

make_dirs-Reaches :
    (env : Env) (current : ℕ) (parts : List Bytes) (fs fs' : MemoryFs) (p : ℕ)
    → IsClosed fs
    → current < fs.next_node
    → make_dirs env current parts fs ≡ (ok p, fs')
    → Reaches fs fs' current parts p
make_dirs-Reaches env current [] fs fs' p closed here e =
    let (q, r) = make_dirs-nil env current p fs fs' e in
    rw (← q, ← r) (Reaches-nil fs current closed here)
make_dirs-Reaches env current (part ∷ parts) fs fs' p closed here e =
    elim (Bool-cases (bytes_eq part [])) [
      | inl skip ↦
          let r =
            make_dirs-Reaches env current parts fs fs' p closed here
              (rw (make_dirs-skip env current part parts fs skip) at e) in
          record {
            closed = r.closed;
            extends = r.extends;
            end = r.end;
            walks = walk-skip fs' current part parts skip ∙ r.walks;
          }
      | inr step ↦
          let (child, s, first, rest) =
            bind_ok (child_or_new env current part) (descend env parts) fs fs' p
              (rw (make_dirs-step env current part parts fs step) at e) in
          let lt = child_or_new-lt env current part fs s child closed here first in
          let grown = child_or_new-Extends env current part fs s child closed here first in
          let r =
            make_dirs-Reaches env child parts s fs' p
              (child_or_new-IsClosed env current part fs s child closed here first) lt
              (descend_ok env parts child s fs' p rest) in
          record {
            closed = r.closed;
            extends = Extends-trans fs s fs' grown r.extends;
            end = r.end;
            walks =
                walk-child fs' current part parts child step (
                  r.extends.child current part child (omega (arith, grown.grows))
                    (child_or_new-child env current part fs s child closed here first))
                ∙ r.walks;
          }
    ]

root_result :
    (fs fs' : MemoryFs) (d : ℕ)
    → ◌≡◌ {A = Result ℕ × MemoryFs} (ok fs.root, fs) (ok d, fs')
    → (fs ≡ fs') × (fs.root ≡ d)
root_result fs fs' d e = (cc, cc)

-- From a state whose children are nodes in use: where getOrCreateDirPath succeeds, resolvePath of the
-- same path then finds the directory that it returned; the children are in use again.
pub resolve_path-get_or_create_dir_path :
    (env : Env) (p : Bytes) (fs fs' : MemoryFs) (d : ℕ)
    → IsClosed fs
    → get_or_create_dir_path env p fs ≡ (ok d, fs')
    → (resolve_path p fs' ≡ some d) × IsClosed fs'
unfolding resolve_path get_or_create_dir_path
resolve_path-get_or_create_dir_path env p fs fs' d closed e =
    elim (Bool-cases (is_root_path (clean p))) [
      | inl top ↦
          let (q, r) = root_result fs fs' d (rw (top, get_or_create_dir_path) at e) in
          (rw (top, resolve_path) (ground (arith, q, r)), rw (← q) closed)
      | inr below ↦
          let r =
            make_dirs-Reaches env fs.root (split (trim (clean p))) fs fs' d closed closed.root
              (rw (below, get_or_create_dir_path) at e) in
          (
            rw (below, resolve_path)
                (ap (λ (x : ℕ). walk fs' x (split (trim (clean p)))) r.extends.root ∙ r.walks),
            r.closed,
          )
    ]
