-- ===== src/Conn/Chain/Bytes.antt =====
-- compoundContext.Encode of server/compound.go: where the bytes of each response stand.
use smb_mem_lib.Prelude.{
  ℕ, ◌+◌, ◌-◌, ◌<◌, ◌≡◌, refl, ap, ◌∙◌, Bool, true, false, List, [], ◌∷◌, arith,
}
use smb_mem_lib.Wire.{Slice, roundup8}
use smb_mem_lib.Conn.Chain.{set_related, set_next, copy_slice, encode_from}

pub len-encode_from :
    (off : ℕ) (first : Bool) (ps : List Slice) (b : Slice)
    → (encode_from off first ps b).len ≡ b.len
len-encode_from off first [] b = refl
len-encode_from off first (p ∷ []) b = refl
len-encode_from off first (p ∷ q ∷ ps) b =
    len-encode_from (off + roundup8 p.len) false (q ∷ ps)
      (copy_slice off (set_next (roundup8 p.len) (set_related first p)) b)

byte_before-encode_from :
    (off : ℕ) (first : Bool) (ps : List Slice) (b : Slice) (i : ℕ)
    → i < off
    → (encode_from off first ps b).byte i ≡ b.byte i
byte_before-encode_from off first [] b i lt = refl
byte_before-encode_from off first (p ∷ []) b i lt = ground (arith, lt)
byte_before-encode_from off first (p ∷ q ∷ ps) b i lt =
    let b' = copy_slice off (set_next (roundup8 p.len) (set_related first p)) b in
    let kept : b'.byte i ≡ b.byte i = ground (arith, lt) in
    byte_before-encode_from (off + roundup8 p.len) false (q ∷ ps) b' i (omega (arith, lt)) ∙ kept

byte-copy_slice :
    (off k : ℕ) (p b : Slice)
    → k < p.len
    → off + k < b.len
    → (copy_slice off p b).byte (off + k) ≡ p.byte k
byte-copy_slice off k p b lt room =
    let e : off + k - off ≡ k = omega arith in ground (arith, lt, room, ap p.byte e)

len-set_related : (first : Bool) (p : Slice) → (set_related first p).len ≡ p.len
len-set_related true p = refl
len-set_related false p = refl

-- The last response of a chain, and one before the last, as they stand in the message
pub byte-encode_last :
    (off : ℕ) (first : Bool) (p b : Slice) (k : ℕ)
    → k < p.len
    → off + k < b.len
    → (encode_from off first (p ∷ []) b).byte (off + k) ≡ (set_related first p).byte k
byte-encode_last off first p b k lt room =
    byte-copy_slice off k (set_related first p) b (omega (arith, lt, len-set_related first p)) room

pub byte-encode_inner :
    (off : ℕ) (first : Bool) (p q : Slice) (ps : List Slice) (b : Slice) (k : ℕ)
    → k < p.len
    → off + k < b.len
    → (encode_from off first (p ∷ q ∷ ps) b).byte (off + k)
      ≡ (set_next (roundup8 p.len) (set_related first p)).byte k
byte-encode_inner off first p q ps b k lt room =
    let marked = set_next (roundup8 p.len) (set_related first p) in
    byte_before-encode_from (off + roundup8 p.len) false (q ∷ ps) (copy_slice off marked b)
      (off + k) (omega (arith, lt))
    ∙ byte-copy_slice off k marked b (omega (arith, lt, len-set_related first p)) room
