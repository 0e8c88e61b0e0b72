-- ===== src/Ccm.antt =====
-- internal/crypto/ccm: the CCM mode of a block cipher. The cipher's Encrypt on a block of sixteen bytes
-- and the key stream of crypto/cipher's CTR mode are parameters. A slice that is passed as `dst` does
-- not overlap the others.
pub mod Laws
use smb_mem_lib.Prelude.{
  ℕ, zero, suc, ◌+◌, ◌-◌, ◌*◌, ◌/◌, ◌%◌, ◌^◌, Bool, true, false, not, [], ◌∷◌, ◌++◌, Bytes,
  bytes_eq, length, take, drop, replicate, ltb, leb, ◌==◌, if◌then◌else◌,
}
use Prim.Native.Nat.{bit_or}

-- Exclusive or of numbers of `n` binary digits, and of bytes.
abbrev pub xor_digits : ℕ → ℕ → ℕ → ℕ
xor_digits zero a b = 0
xor_digits (suc n) a b = xor_digits n (a / 2) (b / 2) * 2 + (a + b) % 2

abbrev pub xor_byte : ℕ → ℕ → ℕ
xor_byte a b = xor_digits 8 a b

-- xorBytes(a, a, b): the bytes of `a` behind the end of `b` stay.
unfoldable pub xor_bytes : Bytes → Bytes → Bytes
xor_bytes [] b = []
xor_bytes (x ∷ a) [] = x ∷ a
xor_bytes (x ∷ a) (y ∷ b) = xor_byte x y ∷ xor_bytes a b

-- putUvarint into a slice of `n` bytes
abbrev pub put_uvarint : ℕ → ℕ → Bytes
put_uvarint zero u = []
put_uvarint (suc n) u = u / 2 ^ (8 * n) % 256 ∷ put_uvarint n u

abbrev pub max_uvarint : ℕ → ℕ
max_uvarint n = 2 ^ (8 * n) - 1

-- mac, whose block size is 16
pub record Mac : Type 0 where
  pub ci : Bytes
  pub p : ℕ

abbrev pub new_mac : Mac
new_mac = record { ci = replicate 16 0; p = 0 }

-- `ci[p] ^= c`
unfoldable pub xor_at : ℕ → ℕ → Bytes → Bytes
xor_at p c [] = []
xor_at zero c (b ∷ ci) = xor_byte b c ∷ ci
xor_at (suc p) c (b ∷ ci) = b ∷ xor_at p c ci

-- Behind sliceForAppend and in Open: what an operation leads to.
pub data Outcome : Type 0 where
  done : Bytes → Outcome
  nil : Outcome
  too_long : Outcome
  forged : Outcome
  panicked : Outcome

module _ (encrypt : Bytes → Bytes) where
  -- One byte of Write
  abbrev pub write_byte : Mac → ℕ → Mac
  write_byte m c =
      let full = leb (length m.ci) m.p in
      let ci = if full then encrypt m.ci else m.ci in
      let p = if full then 0 else m.p in record { ci = xor_at p c ci; p = p + 1 }

  -- Write
  unfoldable pub write : Mac → Bytes → Mac
  unfolding xor_at
  write m [] = m
  write m (c ∷ s) = write (write_byte m c) s

  -- PadZero
  abbrev pub pad_zero : Mac → Mac
  pad_zero m = if m.p == 0 then m else record { ci = encrypt m.ci; p = 0 }

  -- The length of the associated data, as getTag writes it.
  abbrev pub data_length : ℕ → Bytes
  data_length n =
      if ltb n (2 ^ 15 - 2 ^ 7)
      then put_uvarint 2 n
      else if leb n (2 ^ 31 - 1)
      then 0xff ∷ 0xfe ∷ put_uvarint 4 n
      else 0xff ∷ 0xff ∷ put_uvarint 8 n

  module _ (nonce_size tag_size : ℕ) where
    -- The block B0 of getTag, which it makes of the counter block.
    abbrev pub first_block : Bytes → Bytes → ℕ → Bytes
    first_block nonce additional n =
        let flags = bit_or (15 - nonce_size - 1) ((tag_size - 2) / 2 * 2 ^ 3) in
        (if length additional == 0 then flags else bit_or flags (2 ^ 6))
        ∷ (nonce ++ put_uvarint (15 - nonce_size) n)

    -- getTag
    unfoldable pub get_tag : Bytes → Bytes → Bytes → Bytes
    unfolding write
    get_tag nonce additional plaintext =
        let start = write new_mac (first_block nonce additional (length plaintext)) in
        let with_data =
          pad_zero (write (write start (data_length (length additional))) additional) in
        let head = if length additional == 0 then start else with_data in
        (pad_zero (write head plaintext)).ci

    -- The counter block, with its last byte.
    abbrev pub counter : Bytes → ℕ → Bytes
    counter nonce last =
        (15 - nonce_size - 1) ∷ (nonce ++ (replicate (14 - length nonce) 0 ++ (last ∷ [])))

    module _ (xor_key_stream : Bytes → Bytes → Bytes) where
      -- Seal
      unfoldable pub seal : Bytes → Bytes → Bytes → Bytes → Outcome
      unfolding get_tag xor_bytes
      seal dst nonce plaintext additional =
          if not (length nonce == nonce_size)
          then panicked
          else if ltb (max_uvarint (15 - nonce_size)) (length plaintext)
          then nil
          else (let tag =
                xor_bytes (encrypt (counter nonce 0)) (get_tag nonce additional plaintext) in
              done (
                take (length plaintext + tag_size)
                  (dst ++ (xor_key_stream (counter nonce 1) plaintext ++ tag))))

      -- Open
      unfoldable pub open_ciphertext : Bytes → Bytes → Bytes → Bytes → Outcome
      unfolding get_tag xor_bytes bytes_eq
      open_ciphertext dst nonce ciphertext additional =
          let n = length ciphertext - tag_size in
          let plaintext = xor_key_stream (counter nonce 1) (take n ciphertext) in
          let tag = xor_bytes (get_tag nonce additional plaintext) (encrypt (counter nonce 0)) in
          if not (length nonce == nonce_size)
          then panicked
          else if leb (length ciphertext) tag_size
          then panicked
          else if ltb (max_uvarint (15 - nonce_size)) n
          then too_long
          else if bytes_eq (take tag_size tag) (drop n ciphertext)
          then done (dst ++ plaintext)
          else forged
