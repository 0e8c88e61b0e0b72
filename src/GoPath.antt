-- ===== src/GoPath.antt =====
-- What the program uses of Go's packages `path` and `strings` on slash-separated names.
-- `clean` works on the list of elements, where Go's works on a buffer.
use smb_mem_lib.Prelude.{
  ℕ, Bool, true, false, ◌||◌, List, [], ◌∷◌, ◌++◌, Bytes, bytes_eq, ◌==◌, if◌then◌else◌,
}

abbrev pub slash : ℕ
slash = b'/'

abbrev pub dot : Bytes
dot = b'.' ∷ []

abbrev pub dot_dot : Bytes
dot_dot = b'.' ∷ b'.' ∷ []

-- strings.Split(s, "/")
unfoldable pub split : Bytes → List Bytes
split [] = [] ∷ []
split (c ∷ s) = elim (split s) [
  | [] ↦ []
  | part ∷ parts ↦ if c == slash then [] ∷ part ∷ parts else (c ∷ part) ∷ parts
]

strip_left : Bytes → Bytes
strip_left [] = []
strip_left (c ∷ s) = let rest = strip_left s in if c == slash then rest else c ∷ s

strip_right : Bytes → Bytes
strip_right [] = []
strip_right (c ∷ s) = elim (strip_right s) [
  | [] ↦ (if c == slash then [] else c ∷ [])
  | d ∷ r ↦ c ∷ d ∷ r
]

-- strings.Trim(s, "/")
unfoldable pub trim : Bytes → Bytes
unfolding strip_left strip_right
trim s = strip_right (strip_left s)

-- One element of a path, on the reversed list of those before it.
abbrev push : Bool → List Bytes → Bytes → List Bytes
push rooted done part =
    if bytes_eq part [] || bytes_eq part dot
    then done
    else if bytes_eq part dot_dot
    then (elim done [
      | [] ↦ (if rooted then [] else dot_dot ∷ [])
      | top ∷ below ↦ (if bytes_eq top dot_dot then dot_dot ∷ top ∷ below else below)
    ])
    else part ∷ done

elements : Bool → List Bytes → List Bytes → List Bytes
elements rooted done [] = done
elements rooted done (part ∷ parts) = elements rooted (push rooted done part) parts

-- The elements, in reverse, joined by slashes in front of `tail`.
join_reversed : List Bytes → Bytes → Bytes
join_reversed [] tail = tail
join_reversed (part ∷ []) tail = part ++ tail
join_reversed (part ∷ next ∷ more) tail = join_reversed (next ∷ more) (slash ∷ (part ++ tail))

abbrev is_rooted : Bytes → Bool
is_rooted [] = false
is_rooted (c ∷ s) = c == slash

abbrev finish : Bool → List Bytes → Bytes
finish true done = slash ∷ join_reversed done []
finish false [] = dot
finish false (part ∷ done) = join_reversed (part ∷ done) []

-- path.Clean
unfoldable pub clean : Bytes → Bytes
unfolding split elements join_reversed bytes_eq
clean s = finish (is_rooted s) (elements (is_rooted s) [] (split s))

-- path.Split: what ends in the last slash, and what follows it.
unfoldable pub split_last : Bytes → Bytes × Bytes
split_last [] = ([], [])
split_last (c ∷ s) =
    let (front, name) = split_last s in
    elim front [
      | [] ↦ (if c == slash then (c ∷ [], name) else ([], c ∷ name))
      | d ∷ r ↦ (c ∷ d ∷ r, name)
    ]

-- path.Dir
unfoldable pub dir : Bytes → Bytes
unfolding split_last clean
dir s = clean (split_last s).0

-- path.Base
unfoldable pub base : Bytes → Bytes
unfolding split_last strip_right
base [] = dot
base (c ∷ s) = elim (split_last (strip_right (c ∷ s))).1 [ [] ↦ slash ∷ [] | d ∷ r ↦ d ∷ r ]

-- path.Join of two elements
unfoldable pub join : Bytes → Bytes → Bytes
unfolding clean
join [] [] = []
join [] (c ∷ s) = clean (c ∷ s)
join (c ∷ s) [] = clean (c ∷ s)
join (c ∷ s) (d ∷ t) = clean ((c ∷ s) ++ (slash ∷ d ∷ t))
