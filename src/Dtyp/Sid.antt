-- ===== src/Dtyp/Sid.antt =====
-- Sid and SidDecoder of internal/smb2/dtyp.go.
use smb_mem_lib.Prelude.{
  ℕ, zero, suc, ◌+◌, ◌-◌, ◌*◌, ◌/◌, ◌%◌, ◌^◌, ◌≤◌, ◌<◌, ◌≡◌, refl, Bool, true, false, ◌||◌, Option,
  none, some, List, [], ◌∷◌, ◌++◌, Bytes, length, drop, get_elem?, All, ltb, leb, if◌then◌else◌,
  arith,
}
use smb_mem_lib.Dtyp.{◌>>=◌, le_bytes, le_uint32, le_word}

pub record Sid : Type 0 where
  pub revision : ℕ
  pub identifier_authority : ℕ
  pub sub_authority : List ℕ

-- Size
abbrev pub size : Sid → ℕ
size sid = 8 + length sid.sub_authority * 4

-- The loop of Encode over the sub-authorities, in front of the rest of the slice.
abbrev pub put_all : List ℕ → Bytes → Bytes
put_all [] tail = tail
put_all (u ∷ us) tail = le_bytes u ++ put_all us tail

-- `byte(IdentifierAuthority >> uint64(8*(6-j)))`
abbrev pub authority_byte : ℕ → ℕ → ℕ
authority_byte a j = a / 2 ^ (8 * (6 - j)) % 256

-- Encode into a slice, with the slice afterwards.
unfoldable pub encode : Sid → Bytes → Option Bytes
encode sid p =
    let a = sid.identifier_authority in
    if leb (size sid) (length p)
    then some (
        sid.revision
        ∷ length sid.sub_authority % 256
        ∷ authority_byte a 0
        ∷ authority_byte a 1
        ∷ authority_byte a 2
        ∷ authority_byte a 3
        ∷ authority_byte a 4
        ∷ authority_byte a 5
        ∷ put_all sid.sub_authority (drop (size sid) p))
    else none

-- The loop of SubAuthority, with the number of rounds left.
unfoldable pub get_all : ℕ → Bytes → Option (List ℕ)
get_all zero s = some []
get_all (suc n) s = do u ← le_uint32 s; us ← get_all n (drop 4 s); some (u ∷ us)

-- SidDecoder.IsInvalid
unfoldable pub is_invalid : Bytes → Bool
is_invalid c = elim (get_elem? c 1) [
  | none ↦ true
  | some count ↦ ltb (length c) 8 || ltb (length c) (8 + count * 4)
]

-- SidDecoder.IdentifierAuthority on the bytes 2 to 7
abbrev pub authority : ℕ → ℕ → ℕ → ℕ → ℕ → ℕ → ℕ
authority c2 c3 c4 c5 c6 c7 =
    c7 + c6 * 2 ^ 8 + c5 * 2 ^ 16 + c4 * 2 ^ 24 + c3 * 2 ^ 32 + c2 * 2 ^ 40

-- SidDecoder.Decode
unfoldable pub decode : Bytes → Option Sid
unfolding get_all
decode s = do
  revision ← get_elem? s 0
  count ← get_elem? s 1
  c2 ← get_elem? s 2
  c3 ← get_elem? s 3
  c4 ← get_elem? s 4
  c5 ← get_elem? s 5
  c6 ← get_elem? s 6
  c7 ← get_elem? s 7
  subs ← get_all count (drop 8 s)
  some (record {
    revision = revision;
    identifier_authority = authority c2 c3 c4 c5 c6 c7;
    sub_authority = subs;
  })

pub get_all-put_all :
    (us : List ℕ) (tail : Bytes)
    → All (λ u. u < 2 ^ 32) us
    → get_all (length us) (put_all us tail) ≡ some us
unfolding get_all
get_all-put_all [] tail h = refl
get_all-put_all (u ∷ us) tail h = ground (arith, le_word u h.0, get_all-put_all us tail h.1)

pub length-put_all :
    (us : List ℕ) (tail : Bytes) → length (put_all us tail) ≡ length us * 4 + length tail
length-put_all [] tail = omega arith
length-put_all (u ∷ us) tail = ground (arith, length-put_all us tail)

-- For a slice that is large enough, at most 255 sub-authorities, all of them uint32, and a uint64
-- authority: what Encode writes is valid and decodes to the Sid with its authority shifted right by
-- eight bits, the lowest byte lost.
pub decode-encode_shifted :
    (sid : Sid) (p : Bytes)
    → length sid.sub_authority < 256
    → All (λ u. u < 2 ^ 32) sid.sub_authority
    → sid.identifier_authority < 2 ^ 64
    → size sid ≤ length p
    → (q : Bytes) × (encode sid p ≡ some q)
      × (is_invalid q ≡ false)
      × (decode q
          ≡ some (record sid { identifier_authority = sid.identifier_authority / 2 ^ 8 % 2 ^ 48 }))
unfolding encode decode is_invalid
decode-encode_shifted sid p few words wide room =
    let a = sid.identifier_authority in
    let tail = put_all sid.sub_authority (drop (size sid) p) in
    (
      sid.revision
          ∷ length sid.sub_authority % 256
          ∷ authority_byte a 0
          ∷ authority_byte a 1
          ∷ authority_byte a 2
          ∷ authority_byte a 3
          ∷ authority_byte a 4
          ∷ authority_byte a 5
          ∷ tail,
      ground (arith, room),
      ground (arith, few, length-put_all sid.sub_authority (drop (size sid) p)),
      ground (arith, few, get_all-put_all sid.sub_authority (drop (size sid) p) words),
    )
