-- ===== src/SmbPath.antt =====
-- server/path.go: paths of the SMB client with backslashes. The loops run down from the end of a path,
-- so that they are functions of the reversed path.
pub mod Laws
use smb_mem_lib.Prelude.{
  ℕ, Bool, true, false, ◌&&◌, not, List, [], ◌∷◌, ◌++◌, Bytes, bytes_eq, map, ◌==◌, if◌then◌else◌,
}

-- PathSeparator
abbrev pub backslash : ℕ
backslash = 92

abbrev pub dot : ℕ
dot = b'.'

abbrev pub is_path_separator : ℕ → Bool
is_path_separator c = c == backslash

abbrev pub reverse_onto : Bytes → Bytes → Bytes
reverse_onto [] acc = acc
reverse_onto (c ∷ s) acc = reverse_onto s (c ∷ acc)

abbrev pub reverse : Bytes → Bytes
reverse s = reverse_onto s []

-- `for i > 0 && IsPathSeparator(path[i-1]) { i-- }`
unfoldable pub skip_separators : Bytes → Bytes
skip_separators [] = []
skip_separators (c ∷ s) =
    let rest = skip_separators s in if is_path_separator c then rest else c ∷ s

-- `for i > 0 && !IsPathSeparator(path[i-1]) { i-- }`: what the loop passes, in the order of the path in
-- front of `passed`, and what is left, in reverse.
unfoldable pub skip_name : Bytes → Bytes → Bytes × Bytes
skip_name [] passed = (passed, [])
skip_name (c ∷ s) passed =
    let rest = skip_name s (c ∷ passed) in if is_path_separator c then (passed, c ∷ s) else rest

-- base
unfoldable pub base : Bytes → Bytes
unfolding skip_separators skip_name
base path = (skip_name (skip_separators (reverse path)) []).0

-- The prefix that is left of a path at the end of dir, where nothing left is the root.
abbrev or_root : Bytes → Bytes
or_root [] = backslash ∷ []
or_root (c ∷ s) = reverse (c ∷ s)

-- dir, after the last name
abbrev dir_of_rest : Bytes → Bytes
dir_of_rest [] = []
dir_of_rest (c ∷ s) = or_root (skip_separators s)

abbrev dir_of_reversed : Bytes → Bytes
dir_of_reversed [] = backslash ∷ []
dir_of_reversed (c ∷ s) = dir_of_rest (skip_name s []).1

-- dir
unfoldable pub dir : Bytes → Bytes
unfolding skip_separators skip_name
dir [] = []
dir (c ∷ s) = dir_of_reversed (skip_separators (reverse (c ∷ s)))

-- split
unfoldable pub split : Bytes → Bytes × Bytes
unfolding skip_name
split path = let (file, rest) = skip_name (reverse path) [] in (reverse rest, file)

-- strings.Replace(path, `/`, `\`, -1)
abbrev pub replace_slashes : Bytes → Bytes
replace_slashes [] = []
replace_slashes (c ∷ s) = (if c == b'/' then backslash else c) ∷ replace_slashes s

-- `for strings.HasPrefix(path, `.\`) { path = path[2:] }`
unfoldable pub strip_dots : Bytes → Bytes
strip_dots [] = []
strip_dots (c ∷ []) = c ∷ []
strip_dots (c ∷ d ∷ s) =
    let rest = strip_dots s in if c == dot && d == backslash then rest else c ∷ d ∷ s

-- normPattern; the flag is NORMALIZE_PATH.
unfoldable pub norm_pattern : Bool → Bytes → Bytes
unfolding strip_dots
norm_pattern normalize pattern = if normalize then strip_dots (replace_slashes pattern) else pattern

-- normPath
unfoldable pub norm_path : Bool → Bytes → Bytes
unfolding strip_dots bytes_eq
norm_path normalize path =
    let p = strip_dots (replace_slashes path) in
    if normalize then (if bytes_eq p (dot ∷ []) then [] else p) else path

-- strings.Join(elem, `\`)
abbrev join_all : List Bytes → Bytes
join_all [] = []
join_all (e ∷ []) = e
join_all (e ∷ f ∷ es) = e ++ (backslash ∷ join_all (f ∷ es))

-- join
unfoldable pub join : Bool → List Bytes → Bytes
unfolding norm_path
join normalize elem = norm_path normalize (join_all elem)
