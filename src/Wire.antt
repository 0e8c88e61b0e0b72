-- ===== src/Wire.antt =====
-- Byte slices that are written in place: make, copy, and encoding/binary's little-endian reads and
-- writes, as internal/smb2 uses them.
pub mod Words
pub mod Writes
use smb_mem_lib.Prelude.{
  ℕ, zero, suc, ◌+◌, ◌-◌, ◌*◌, ◌/◌, ◌%◌, ◌^◌, ◌≤◌, ◌<◌, ◌≡◌, refl, Bool, true, false, ◌&&◌, ◌||◌,
  Option, none, some, List, [], ◌∷◌, Bytes, length, ltb, leb, ◌==◌, if◌then◌else◌, arith,
}

-- The bytes from 0 to `len`, and whether a write has gone beyond them, which is a panic: then the bytes
-- mean nothing any more.
pub record Slice : Type 0 where
  pub len : ℕ
  pub byte : ℕ → ℕ
  pub fault : Bool

-- make([]byte, n)
abbrev pub zeroed : ℕ → Slice
zeroed n = record { len = n; byte = λ i. 0; fault = false }

-- b[off:]
abbrev pub from : ℕ → Slice → Slice
from off b = record {
  len = b.len - off;
  byte = λ i. b.byte (off + i);
  fault = b.fault || ltb b.len off;
}

-- b[off] = v, and le.PutUint16, PutUint32 and PutUint64 at `off`
abbrev put8 : ℕ → ℕ → Slice → Slice
put8 off v b = record {
  len = b.len;
  byte = λ i. if i == off then v % 256 else b.byte i;
  fault = b.fault || leb b.len off;
}

abbrev pub put16 : ℕ → ℕ → Slice → Slice
put16 off v b = put8 (off + 1) (v / 2 ^ 8) (put8 off v b)

abbrev pub put32 : ℕ → ℕ → Slice → Slice
put32 off v b = put16 (off + 2) (v / 2 ^ 16) (put16 off v b)

abbrev pub put64 : ℕ → ℕ → Slice → Slice
put64 off v b = put32 (off + 4) (v / 2 ^ 32) (put32 off v b)

-- le.Uint16, Uint32 and Uint64 at `off`, within the slice: the decoders test its length first.
abbrev pub uint16 : ℕ → Slice → ℕ
uint16 off b = b.byte off + b.byte (off + 1) * 2 ^ 8

abbrev pub uint32 : ℕ → Slice → ℕ
uint32 off b = uint16 off b + uint16 (off + 2) b * 2 ^ 16

abbrev pub uint64 : ℕ → Slice → ℕ
uint64 off b = uint32 off b + uint32 (off + 4) b * 2 ^ 32

-- The byte of a list at an index, 0 behind its end.
abbrev pub nth : Bytes → ℕ → ℕ
nth [] i = 0
nth (x ∷ xs) zero = x
nth (x ∷ xs) (suc i) = nth xs i

-- copy(b[off:], bs): what has no room is left out.
abbrev pub copy_at : ℕ → Bytes → Slice → Slice
copy_at off bs b = record {
  len = b.len;
  byte = λ i. if leb off i && ltb i (off + length bs) then nth bs (i - off) else b.byte i;
  fault = b.fault || ltb b.len off;
}

-- An Encoder that writes the bytes `bs` at `off`, for which there must be room.
abbrev pub put_encoder : ℕ → Bytes → Slice → Slice
put_encoder off bs b = record {
  len = b.len;
  byte = λ i. if leb off i && ltb i (off + length bs) then nth bs (i - off) else b.byte i;
  fault = b.fault || ltb b.len (off + length bs);
}

-- One write, at an offset, and the writes of an Encode in their order.
pub data Write : Type 0 where
  u8 u16 u32 u64 : ℕ → ℕ → Write
  copied raw : ℕ → Bytes → Write

abbrev pub apply : Write → Slice → Slice
apply (u8 off v) = put8 off v
apply (u16 off v) = put16 off v
apply (u32 off v) = put32 off v
apply (u64 off v) = put64 off v
apply (copied off bs) = copy_at off bs
apply (raw off bs) = put_encoder off bs

abbrev pub write_all : List Write → Slice → Slice
write_all [] b = b
write_all (w ∷ ws) b = write_all ws (apply w b)

-- The bytes of UTF-16 code units, and the units of bytes. A Go string stands as the units that
-- unicode/utf16 makes of it.
abbrev pub unit_bytes : List ℕ → Bytes
unit_bytes [] = []
unit_bytes (w ∷ ws) = w % 256 ∷ w / 2 ^ 8 % 256 ∷ unit_bytes ws

abbrev pub bytes_units : Bytes → List ℕ
bytes_units [] = []
bytes_units (a ∷ []) = []
bytes_units (a ∷ b ∷ bs) = (a + b * 2 ^ 8) ∷ bytes_units bs

-- `ws[len(ws)-1] == 0`: a zero at the end is dropped.
abbrev pub drop_zero : List ℕ → List ℕ
drop_zero [] = []
drop_zero (w ∷ []) = if w == 0 then [] else w ∷ []
drop_zero (w ∷ v ∷ ws) = w ∷ drop_zero (v ∷ ws)

-- utf16le.EncodedStringLen, EncodeString at `off`, and DecodeToString
abbrev pub encoded_string_len : List ℕ → ℕ
encoded_string_len ws = 2 * length ws

abbrev pub encode_string : ℕ → List ℕ → Write
encode_string off ws = raw off (unit_bytes ws)

abbrev pub decode_to_string : Bytes → List ℕ
decode_to_string bs = drop_zero (bytes_units bs)

-- The `n` bytes from `off` on.
abbrev pub bytes_at : ℕ → ℕ → Slice → Bytes
bytes_at off zero b = []
bytes_at off (suc n) b = b.byte off ∷ bytes_at (off + 1) n b

-- What a decoder leads to: IsInvalid rejects the packet, an access panics, or the fields are read.
pub data Decoded (A : Type 0) : Type 0 where
  rejected : Decoded A
  panicked : Decoded A
  decoded : A → Decoded A

infixl 5 ◌>>=◌
abbrev pub ◌>>=◌ : {A B : Type 0} → Decoded A → (A → Decoded B) → Decoded B
◌>>=◌ rejected f = rejected
◌>>=◌ panicked f = panicked
◌>>=◌ (decoded a) f = f a

-- b[lo:hi]. The capacity of a slice is taken to be its length.
unfoldable pub slice : ℕ → ℕ → Slice → Decoded Bytes
slice lo hi b = if leb lo hi && leb hi b.len then decoded (bytes_at lo (hi - lo) b) else panicked

-- Roundup(x, align) and Align(x, align) for the align 8
abbrev pub roundup8 : ℕ → ℕ
roundup8 x = (x + 7) / 8 * 8

-- b[off:] as bytes
unfoldable pub rest_of : ℕ → Slice → Decoded Bytes
rest_of off b = if leb off b.len then decoded (bytes_at off (b.len - off) b) else panicked

-- A loop that writes Encoders one after the other from `off` on.
abbrev pub encoders : ℕ → List Bytes → List Write
encoders off [] = []
encoders off (e ∷ es) = raw off e ∷ encoders (off + length e) es

-- What stands behind the header of a slice is decoded to a value, and no write has gone beyond it.
abbrev pub Carries : {B : Type 0} → Slice → (Slice → Decoded B) → B → Type 0
Carries s d v = (s.fault ≡ false) × (d (from 64 s) ≡ decoded v)
