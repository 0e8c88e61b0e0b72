-- ===== src/Dtyp.antt =====
-- internal/smb2/dtyp.go: times and security identifiers on the wire. A slice's capacity is taken to be
-- its length, so that each access past the length panics, which is `none`.
pub mod Filetime
pub mod Sid
use smb_mem_lib.Prelude.{
  ℕ, ◌+◌, ◌*◌, ◌/◌, ◌%◌, ◌^◌, ◌<◌, ◌≡◌, Option, none, some, [], ◌∷◌, Bytes, arith,
}

-- A failed access ends the function.
infixl 5 ◌>>=◌
abbrev pub ◌>>=◌ : {A B : Type 0} → Option A → (A → Option B) → Option B
◌>>=◌ none f = none
◌>>=◌ (some a) f = f a

-- le.PutUint32: the bytes of a uint32.
abbrev pub le_bytes : ℕ → Bytes
le_bytes v = v % 256 ∷ v / 2 ^ 8 % 256 ∷ v / 2 ^ 16 % 256 ∷ v / 2 ^ 24 % 256 ∷ []

-- le.Uint32
abbrev pub le_uint32 : Bytes → Option ℕ
le_uint32 (a ∷ b ∷ c ∷ d ∷ s) = some (a + b * 2 ^ 8 + c * 2 ^ 16 + d * 2 ^ 24)
le_uint32 (a ∷ b ∷ c ∷ []) = none
le_uint32 (a ∷ b ∷ []) = none
le_uint32 (a ∷ []) = none
le_uint32 [] = none

pub le_word :
    (v : ℕ)
    → v < 2 ^ 32
    → v % 256 + v / 2 ^ 8 % 256 * 2 ^ 8 + v / 2 ^ 16 % 256 * 2 ^ 16 + v / 2 ^ 24 % 256 * 2 ^ 24 ≡ v
le_word v h = omega arith
