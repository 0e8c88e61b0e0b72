-- ===== src/SmbPath/Laws.antt =====
-- split, base and normPath of server/path.go.
use smb_mem_lib.Prelude.{
  ◌≡◌, refl, ◌∙◌, Bool, true, false, [], ◌∷◌, ◌++◌, Bytes, bytes_eq, All, ◌==◌, arith, Bool-cases,
  inl, inr, ◌&&◌,
}
use smb_mem_lib.SmbPath.{
  backslash, dot, is_path_separator, reverse_onto, reverse, skip_separators, skip_name, base, split,
  replace_slashes, strip_dots, norm_path,
}

-- A name: no separator in it.
abbrev pub IsName : Bytes → Type 0
IsName = All (λ c. is_path_separator c ≡ false)

skip_name-IsName : (s passed : Bytes) → IsName passed → IsName (skip_name s passed).0
unfolding skip_name
skip_name-IsName [] passed h = h
skip_name-IsName (c ∷ s) passed h = elim (Bool-cases (is_path_separator c)) [
  | inl e ↦ rw (e, skip_name) h
  | inr e ↦ rw (e, skip_name) (skip_name-IsName s (c ∷ passed) (e, h))
]

reverse-skip_name :
    (s passed : Bytes)
    → reverse_onto (skip_name s passed).1 (skip_name s passed).0 ≡ reverse_onto s passed
unfolding skip_name
reverse-skip_name [] passed = refl
reverse-skip_name (c ∷ s) passed = elim (Bool-cases (is_path_separator c)) [
  | inl e ↦ rw (e, skip_name) refl
  | inr e ↦ rw (e, skip_name) (reverse-skip_name s (c ∷ passed))
]

append-reverse : (s t acc : Bytes) → reverse_onto s acc ++ t ≡ reverse_onto s (acc ++ t)
append-reverse [] t acc = refl
append-reverse (c ∷ s) t acc = append-reverse s t (c ∷ acc)

reverse-reverse_onto : (s acc : Bytes) → reverse_onto (reverse_onto s acc) [] ≡ reverse_onto acc s
reverse-reverse_onto [] acc = refl
reverse-reverse_onto (c ∷ s) acc = reverse-reverse_onto s (c ∷ acc)

-- The two parts that split returns make up the path, and the second has no separator.
split_lem : (path : Bytes) → ((split path).0 ++ (split path).1 ≡ path) × IsName (split path).1
unfolding split
split_lem path = (
  append-reverse (skip_name (reverse path) []).1 (skip_name (reverse path) []).0 []
      ∙ reverse-skip_name (reverse path) []
      ∙ reverse-reverse_onto path [],
  skip_name-IsName (reverse path) [] tt,
)

-- base returns a name without separators.
base-IsName : (path : Bytes) → IsName (base path)
unfolding base
base-IsName path = skip_name-IsName (skip_separators (reverse path)) [] tt

-- No slash is left.
abbrev pub HasNoSlash : Bytes → Type 0
HasNoSlash = All (λ c. (c == b'/') ≡ false)

replace_slashes-HasNoSlash : (s : Bytes) → HasNoSlash (replace_slashes s)
replace_slashes-HasNoSlash [] = tt
replace_slashes-HasNoSlash (c ∷ s) = (ground arith, replace_slashes-HasNoSlash s)

replace_slashes-id : (s : Bytes) → HasNoSlash s → replace_slashes s ≡ s
replace_slashes-id [] h = refl
replace_slashes-id (c ∷ s) h = ground (arith, h.0, replace_slashes-id s h.1)

strip_dots-HasNoSlash : (s : Bytes) → HasNoSlash s → HasNoSlash (strip_dots s)
unfolding strip_dots
strip_dots-HasNoSlash [] h = h
strip_dots-HasNoSlash (c ∷ []) h = h
strip_dots-HasNoSlash (c ∷ d ∷ s) h = elim (Bool-cases (c == dot && d == backslash)) [
  | inl e ↦ rw (e, strip_dots) (strip_dots-HasNoSlash s h.1.1)
  | inr e ↦ rw (e, strip_dots) h
]

strip_dots-strip_dots : (s : Bytes) → strip_dots (strip_dots s) ≡ strip_dots s
unfolding strip_dots
strip_dots-strip_dots [] = refl
strip_dots-strip_dots (c ∷ []) = refl
strip_dots-strip_dots (c ∷ d ∷ s) = elim (Bool-cases (c == dot && d == backslash)) [
  | inl e ↦ rw (e, strip_dots) (strip_dots-strip_dots s)
  | inr e ↦ rw (e, strip_dots, e) refl
]

norm_path-HasNoSlash : (path : Bytes) → HasNoSlash (norm_path true path)
unfolding norm_path
norm_path-HasNoSlash path =
    elim (Bool-cases (bytes_eq (strip_dots (replace_slashes path)) (dot ∷ []))) [
      | inl e ↦ rw (e, norm_path) tt
      | inr e ↦
          rw (e, norm_path)
            (strip_dots-HasNoSlash (replace_slashes path) (replace_slashes-HasNoSlash path))
    ]

norm_path_again : (path : Bytes) → norm_path true (norm_path true path) ≡ norm_path true path
unfolding norm_path bytes_eq strip_dots
norm_path_again path =
    let p = strip_dots (replace_slashes path) in
    let q = strip_dots-HasNoSlash (replace_slashes path) (replace_slashes-HasNoSlash path) in
    elim (Bool-cases (bytes_eq p (dot ∷ []))) [
      | inl e ↦ rw (e, norm_path) refl
      | inr e ↦
          rw
            (
              e,
              norm_path,
              replace_slashes-id (strip_dots (replace_slashes path)) q,
              strip_dots-strip_dots (replace_slashes path),
              e,
            )
            refl
    ]

-- Whether or not it normalizes, normPath of a normalized path is that path; where it normalizes, the
-- path has no slash.
norm_path_lem :
    (normalize : Bool) (path : Bytes)
    → (norm_path normalize (norm_path normalize path) ≡ norm_path normalize path)
      × HasNoSlash (norm_path true path)
unfolding norm_path
norm_path_lem false path = (refl, norm_path-HasNoSlash path)
norm_path_lem true path = (norm_path_again path, norm_path-HasNoSlash path)
