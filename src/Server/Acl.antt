-- ===== src/Server/Acl.antt =====
-- server/acl.go, and the loop of setSecInfo in server/file_tree.go that looks for the mode of a file in an
-- access control list. What Encode writes covers its Size, so that it stands as these bytes.
pub mod Descriptor
mod Tests
use smb_mem_lib.Prelude.{
  ℕ, zero, suc, ◌+◌, ◌*◌, ◌/◌, ◌%◌, ◌^◌, ◌<◌, ◌≡◌, refl, ap, ◌∙◌, sym, Bool, Bool-cases, inl, inr,
  true, false, ◌&&◌, ◌||◌, Option, none, some, List, [], ◌∷◌, ◌++◌, Bytes, length, length-append,
  drop, get_elem?, All, ltb, ◌==◌, if◌then◌else◌, arith,
}
use smb_mem_lib.Dtyp.{◌>>=◌, le_bytes, le_uint32, le_word}
use smb_mem_lib.Dtyp.Sid.{put_all, get_all, get_all-put_all, length-put_all}

-- SID, with the six bytes of its authority
pub record Sid : Type 0 where
  pub a0 : ℕ
  pub a1 : ℕ
  pub a2 : ℕ
  pub a3 : ℕ
  pub a4 : ℕ
  pub a5 : ℕ
  pub sub_authority : List ℕ

-- ACE; an ACL is a list of them.
pub record Ace : Type 0 where
  pub sid : Sid
  pub kind : ℕ
  pub mask : ℕ

-- SIDFromUid, SIDFromGid and SIDFromMode, with 1, 2 and 3
abbrev pub nfs_sid : ℕ → ℕ → Sid
nfs_sid which value = record {
  a0 = 0;
  a1 = 0;
  a2 = 0;
  a3 = 0;
  a4 = 0;
  a5 = 5;
  sub_authority = 88 ∷ which ∷ value ∷ [];
}

-- Size of SID, ACE and ACL
abbrev pub sid_size : Sid → ℕ
sid_size s = 8 + length s.sub_authority * 4

abbrev pub ace_size : Ace → ℕ
ace_size a = 8 + sid_size a.sid

abbrev pub aces_size : List Ace → ℕ
aces_size [] = 0
aces_size (a ∷ es) = ace_size a + aces_size es

-- Encode of SID, ACE and ACL
abbrev pub sid_bytes : Sid → Bytes
sid_bytes s =
    1
    ∷ length s.sub_authority % 256
    ∷ s.a0
    ∷ s.a1
    ∷ s.a2
    ∷ s.a3
    ∷ s.a4
    ∷ s.a5
    ∷ put_all s.sub_authority []

abbrev pub le16 : ℕ → Bytes
le16 v = v % 256 ∷ v / 2 ^ 8 % 256 ∷ []

abbrev pub ace_bytes : Ace → Bytes
ace_bytes a = a.kind ∷ 0 ∷ le16 (ace_size a) ++ (le_bytes a.mask ++ sid_bytes a.sid)

abbrev pub aces_bytes : List Ace → Bytes
aces_bytes [] = []
aces_bytes (a ∷ es) = ace_bytes a ++ aces_bytes es

unfoldable pub acl_bytes : List Ace → Bytes
acl_bytes es = 2 ∷ 0 ∷ le16 (8 + aces_size es) ++ (le16 (length es) ++ (0 ∷ 0 ∷ aces_bytes es))

-- The test of setSecInfo on the sub-authorities, and its value
abbrev pub mode_in : List ℕ → Option ℕ
mode_in (a ∷ b ∷ m ∷ []) = if a == 88 && b == 3 then some m else none
mode_in us = none

-- b[off:]
abbrev pub tail_at : ℕ → Bytes → Option Bytes
tail_at off b = if ltb (length b) off then none else some (drop off b)

abbrev le_uint16 : Bytes → Option ℕ
le_uint16 (a ∷ b ∷ s) = some (a + b * 2 ^ 8)
le_uint16 (a ∷ []) = none
le_uint16 [] = none

-- SidDecoder.SubAuthority, called for three of them only
abbrev subs_of : ℕ → Bytes → Option (List ℕ)
subs_of count sid = if count == 3 then get_all 3 (drop 8 sid) else some []

-- The loop over the entries of the list: what is found, where no access panics
unfoldable pub find_mode : ℕ → Bytes → Option (Option ℕ)
unfolding get_all
find_mode zero buf = some none
find_mode (suc n) buf = do
  sid ← tail_at 8 buf
  count ← get_elem? sid 1
  subs ← subs_of count sid
  elim (mode_in subs) [
    | none ↦ (le_uint16 (drop 2 buf) >>= λ size. tail_at size buf >>= λ rest. find_mode n rest)
    | some m ↦ some (some m)
  ]

-- setSecInfo on the bytes of the list
unfoldable pub mode_of_acl : Bytes → Option (Option ℕ)
mode_of_acl b = do count ← le_uint16 (drop 4 b); entries ← tail_at 8 b; find_mode count entries

-- The first entry of a list that gives a mode
abbrev or_later : Option ℕ → Option ℕ → Option ℕ
or_later none later = later
or_later (some m) later = some m

abbrev pub first_mode : List Ace → Option ℕ
first_mode [] = none
first_mode (a ∷ es) = or_later (mode_in a.sid.sub_authority) (first_mode es)

-- What the wire has room for
abbrev pub IsFit : Ace → Type 0
IsFit a = (length a.sid.sub_authority < 256) × All (λ u. u < 2 ^ 32) a.sid.sub_authority

pub drop-length : (xs ys : Bytes) → drop (length xs) (xs ++ ys) ≡ ys
drop-length [] ys = refl
drop-length (x ∷ xs) ys = drop-length xs ys

put_all-append : (us : List ℕ) (ys : Bytes) → put_all us [] ++ ys ≡ put_all us ys
put_all-append [] ys = refl
put_all-append (u ∷ us) ys = ground (arith, put_all-append us ys)

pub length-ace_bytes : (a : Ace) → length (ace_bytes a) ≡ ace_size a
length-ace_bytes a = ground (arith, length-put_all a.sid.sub_authority [])

-- What stands behind an entry
tail_at-ace : (a : Ace) (rest : Bytes) → tail_at (ace_size a) (ace_bytes a ++ rest) ≡ some rest
tail_at-ace a rest =
    let fits : ltb (length (ace_bytes a ++ rest)) (ace_size a) ≡ false =
      ground (arith, length-append (ace_bytes a) rest, length-ace_bytes a) in
    rw fits (ap some (rw (sym (length-ace_bytes a)) (drop-length (ace_bytes a) rest)))

mode_in-none : (us : List ℕ) → (length us == 3) ≡ false → mode_in us ≡ none
mode_in-none [] h = refl
mode_in-none (a ∷ []) h = refl
mode_in-none (a ∷ b ∷ []) h = refl
mode_in-none (a ∷ b ∷ c ∷ []) h = cc
mode_in-none (a ∷ b ∷ c ∷ d ∷ us) h = refl

found_first :
    (o : Option ℕ) (x : Option (Option ℕ)) (y : Option ℕ)
    → x ≡ some y
    → (elim o as (λ z. Option (Option ℕ)) [ none ↦ x | some m ↦ some (some m) ])
      ≡ some (or_later o y)
found_first none x y h = h
found_first (some m) x y h = refl

subs_of-mode :
    (a : Ace) (rest : Bytes)
    → IsFit a
    → (us : List ℕ) × (subs_of (length a.sid.sub_authority % 256) (sid_bytes a.sid ++ rest)
        ≡ some us)
      × (mode_in us ≡ mode_in a.sid.sub_authority)
subs_of-mode a rest w =
    let us = a.sid.sub_authority in
    elim (Bool-cases (length us % 256 == 3)) [
      | inl three ↦
          let n : length us ≡ 3 = ground (arith, three, w.0) in
          let read : get_all 3 (put_all us [] ++ rest) ≡ some us =
            rw (put_all-append us rest, sym n) (get_all-put_all us rest w.1) in
          (us, rw three read, refl)
      | inr other ↦ ([], rw other refl, sym (mode_in-none us (ground (arith, other, w.0))))
    ]

find_mode-aces_bytes :
    (es : List Ace) → All IsFit es → find_mode (length es) (aces_bytes es) ≡ some (first_mode es)
unfolding find_mode
find_mode-aces_bytes [] w = refl
find_mode-aces_bytes (a ∷ es) w =
    let rest = aces_bytes es in
    let long : ltb (length (ace_bytes a ++ rest)) 8 ≡ false =
      ground (arith, length-append (ace_bytes a) rest, length-ace_bytes a) in
    let subs = subs_of-mode a rest w.0 in
    let word : ace_size a % 256 + ace_size a / 2 ^ 8 % 256 * 2 ^ 8 ≡ ace_size a =
      omega (arith, w.0.0) in
    rw (long, subs.1)
      (found_first (mode_in subs.0) _ (first_mode es)
          (rw (word, tail_at-ace a rest) (find_mode-aces_bytes es w.1))
        ∙ ap (λ (o : Option ℕ). some (or_later o (first_mode es))) subs.2)

-- What setSecInfo finds in an encoded list is the mode of its first entry that has one, and it does not
-- panic, where there are fewer than 2 ^ 16 entries, each with at most 255 sub-authorities, all of them
-- uint32.
mode_of_acl-acl_bytes :
    (es : List Ace)
    → All IsFit es
    → length es < 2 ^ 16
    → mode_of_acl (acl_bytes es) ≡ some (first_mode es)
unfolding mode_of_acl acl_bytes
mode_of_acl-acl_bytes es w few =
    let word : length es % 256 + length es / 2 ^ 8 % 256 * 2 ^ 8 ≡ length es = omega arith in
    let long : ltb (length (acl_bytes es)) 8 ≡ false = ground arith in
    rw (word, long) (find_mode-aces_bytes es w)

-- UnixModeToAceMask, for three bits
abbrev ace_mask : ℕ → ℕ
ace_mask m =
    let x = m % 2 == 1 in
    let w = m / 2 % 2 == 1 in
    let r = m / 4 % 2 == 1 in
    (if x then 0x100020 else 0)
    + (if w then 0x50112 else 0)
    + (if r then 9 else 0)
    + (if x || r then 0x80 else 0)
    + (if x || (w || r) then 0x20000 else 0)

abbrev everyone : Sid
everyone = record { a0 = 0; a1 = 0; a2 = 0; a3 = 0; a4 = 0; a5 = 1; sub_authority = 0 ∷ [] }

-- The list that queryInfoSec makes, of a mode with the bits for the kind of file
unfoldable pub dacl_for : ℕ → ℕ → ℕ → List Ace
dacl_for uid gid mode =
    record { sid = nfs_sid 1 uid; kind = 0; mask = ace_mask (mode / 2 ^ 6 % 8) }
    ∷ record { sid = nfs_sid 2 gid; kind = 0; mask = ace_mask (mode / 2 ^ 3 % 8) }
    ∷ record { sid = everyone; kind = 0; mask = ace_mask (mode % 8) }
    ∷ record { sid = nfs_sid 3 mode; kind = 1; mask = 0 }
    ∷ []

-- The mode that queryInfoSec has put into an access control list is the mode that setSecInfo finds in it,
-- for ids and modes that are uint32.
pub mode_of_acl-dacl_for :
    (uid gid mode : ℕ)
    → uid < 2 ^ 32
    → gid < 2 ^ 32
    → mode < 2 ^ 32
    → mode_of_acl (acl_bytes (dacl_for uid gid mode)) ≡ some (some mode)
unfolding dacl_for
mode_of_acl-dacl_for uid gid mode u g m =
    mode_of_acl-acl_bytes (dacl_for uid gid mode) (ground (arith, u, g, m)) (omega arith)
