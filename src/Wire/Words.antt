-- ===== src/Wire/Words.antt =====
-- Words and lists that are read back.
use smb_mem_lib.Prelude.{
  ap, ◌∙◌, List, ℕ, suc, ◌+◌, ◌*◌, ◌/◌, ◌%◌, ◌^◌, ◌<◌, ◌≡◌, refl, [], ◌∷◌, Bytes, All, length,
  arith,
}
use smb_mem_lib.Wire.{
  Slice, put16, put32, put64, uint16, uint32, uint64, zeroed, bytes_at, nth, unit_bytes,
  bytes_units, drop_zero, decode_to_string,
}

pub word8 : (v : ℕ) → v < 2 ^ 8 → v % 256 ≡ v
word8 v h = omega arith

pub word16 : (v : ℕ) → v < 2 ^ 16 → uint16 0 (put16 0 v (zeroed 2)) ≡ v
word16 v h = omega arith

pub word32 : (v : ℕ) → v < 2 ^ 32 → uint32 0 (put32 0 v (zeroed 4)) ≡ v
word32 v h = omega arith

pub word64 : (v : ℕ) → v < 2 ^ 64 → uint64 0 (put64 0 v (zeroed 8)) ≡ v
word64 v h = omega arith

-- A list that stands in a slice is what is read of it there.
pub bytes_at-eq :
    (off : ℕ) (bs : Bytes) (b : Slice)
    → ((k : ℕ) → k < length bs → b.byte (off + k) ≡ nth bs k)
    → bytes_at off (length bs) b ≡ bs
bytes_at-eq off [] b h = refl
bytes_at-eq off (x ∷ bs) b h =
    let first : b.byte off ≡ x = ap b.byte (omega arith) ∙ h 0 (omega arith) in
    let rest : bytes_at (off + 1) (length bs) b ≡ bs =
      bytes_at-eq (off + 1) bs b
        (λ k lt. ap b.byte (omega arith) ∙ h (suc k) (omega (arith, lt))) in
    rw (first, rest) refl

pub length-unit_bytes : (ws : List ℕ) → length (unit_bytes ws) ≡ 2 * length ws
length-unit_bytes [] = omega arith
length-unit_bytes (w ∷ ws) = omega (arith, length-unit_bytes ws)

-- The last unit, if there is one, is not zero, and the units are uint16.
abbrev pub IsText : List ℕ → Type 0
IsText ws = All (λ w. w < 2 ^ 16) ws × (drop_zero ws ≡ ws)

pub bytes_units-unit_bytes :
    (ws : List ℕ) → All (λ w. w < 2 ^ 16) ws → bytes_units (unit_bytes ws) ≡ ws
bytes_units-unit_bytes [] h = refl
bytes_units-unit_bytes (w ∷ ws) h =
    let first : w % 256 + w / 2 ^ 8 % 256 * 2 ^ 8 ≡ w = omega (arith, h.0) in
    rw (first, bytes_units-unit_bytes ws h.1) refl

pub decode_to_string-unit_bytes : (ws : List ℕ) → IsText ws → decode_to_string (unit_bytes ws) ≡ ws
decode_to_string-unit_bytes ws h = ap drop_zero (bytes_units-unit_bytes ws h.0) ∙ h.1
