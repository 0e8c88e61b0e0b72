-- ===== src/Wire/Writes.antt =====
-- The length, the fault and the bytes of a slice after writes.
use smb_mem_lib.Prelude.{
  ℕ, ◌+◌, ◌-◌, ◌≤◌, ◌<◌, ◌≡◌, refl, ap, ◌∙◌, false, List, [], ◌∷◌, ◌++◌, Bytes, All, length, arith,
}
use smb_mem_lib.Wire.{
  Slice, Write, u8, u16, u32, u64, copied, raw, apply, write_all, nth, bytes_at, copy_at,
  put_encoder, from,
}
use smb_mem_lib.Wire.Words.{bytes_at-eq}

-- The end of the part of the slice that a write changes, and its start.
abbrev pub finish : Write → ℕ
finish (u8 off v) = off + 1
finish (u16 off v) = off + 2
finish (u32 off v) = off + 4
finish (u64 off v) = off + 8
finish (copied off bs) = off + length bs
finish (raw off bs) = off + length bs

abbrev start : Write → ℕ
start (u8 off v) = off
start (u16 off v) = off
start (u32 off v) = off
start (u64 off v) = off
start (copied off bs) = off
start (raw off bs) = off

len-apply : (w : Write) (b : Slice) → (apply w b).len ≡ b.len
len-apply (u8 off v) b = refl
len-apply (u16 off v) b = refl
len-apply (u32 off v) b = refl
len-apply (u64 off v) b = refl
len-apply (copied off bs) b = refl
len-apply (raw off bs) b = refl

pub len-write_all : (ws : List Write) (b : Slice) → (write_all ws b).len ≡ b.len
len-write_all [] b = refl
len-write_all (w ∷ ws) b = len-write_all ws (apply w b) ∙ len-apply w b

fault-apply :
    (w : Write) (b : Slice) → finish w ≤ b.len → b.fault ≡ false → (apply w b).fault ≡ false
fault-apply (u8 off v) b h e = ground (arith, h, e)
fault-apply (u16 off v) b h e = ground (arith, h, e)
fault-apply (u32 off v) b h e = ground (arith, h, e)
fault-apply (u64 off v) b h e = ground (arith, h, e)
fault-apply (copied off bs) b h e = ground (arith, h, e)
fault-apply (raw off bs) b h e = ground (arith, h, e)

-- Writes that end within the slice do not fault.
pub fault-write_all :
    (n : ℕ) (ws : List Write) (b : Slice)
    → b.len ≡ n
    → All (λ w. finish w ≤ n) ws
    → b.fault ≡ false
    → (write_all ws b).fault ≡ false
fault-write_all n [] b l h e = e
fault-write_all n (w ∷ ws) b l h e =
    fault-write_all n ws (apply w b) (len-apply w b ∙ l) h.1
      (fault-apply w b (omega (arith, l, h.0)) e)

byte_behind-apply : (w : Write) (b : Slice) (i : ℕ) → finish w ≤ i → (apply w b).byte i ≡ b.byte i
byte_behind-apply (u8 off v) b i h = ground (arith, h)
byte_behind-apply (u16 off v) b i h = ground (arith, h)
byte_behind-apply (u32 off v) b i h = ground (arith, h)
byte_behind-apply (u64 off v) b i h = ground (arith, h)
byte_behind-apply (copied off bs) b i h = ground (arith, h)
byte_behind-apply (raw off bs) b i h = ground (arith, h)

-- A byte behind all writes stays.
pub byte_behind-write_all :
    (n i : ℕ) (ws : List Write) (b : Slice)
    → All (λ w. finish w ≤ n) ws
    → n ≤ i
    → (write_all ws b).byte i ≡ b.byte i
byte_behind-write_all n i [] b h le = refl
byte_behind-write_all n i (w ∷ ws) b h le =
    byte_behind-write_all n i ws (apply w b) h.1 le
    ∙ byte_behind-apply w b i (omega (arith, h.0, le))

-- The bytes of a list stand where they were written.
byte-copy_at :
    (off k : ℕ) (bs : Bytes) (b : Slice)
    → k < length bs
    → (copy_at off bs b).byte (off + k) ≡ nth bs k
byte-copy_at off k bs b h =
    let e : off + k - off ≡ k = omega arith in ground (arith, h, ap (nth bs) e)

byte-put_encoder :
    (off k : ℕ) (bs : Bytes) (b : Slice)
    → k < length bs
    → (put_encoder off bs b).byte (off + k) ≡ nth bs k
byte-put_encoder off k bs b h =
    let e : off + k - off ≡ k = omega arith in ground (arith, h, ap (nth bs) e)

write_all-append :
    (ws vs : List Write) (b : Slice) → write_all (ws ++ vs) b ≡ write_all vs (write_all ws b)
write_all-append [] vs b = refl
write_all-append (w ∷ ws) vs b = write_all-append ws vs (apply w b)

-- A list that is written behind the header of a packet stands there after further writes before it.
pub bytes_at-copied :
    (off : ℕ) (bs : Bytes) (ws vs : List Write) (b : Slice)
    → All (λ w. finish w ≤ 64 + off) vs
    → bytes_at off (length bs) (from 64 (write_all (ws ++ (copied (64 + off) bs ∷ vs)) b)) ≡ bs
bytes_at-copied off bs ws vs b h =
    let whole = write_all (ws ++ (copied (64 + off) bs ∷ vs)) b in
    bytes_at-eq off bs (from 64 whole) (λ k lt.
      let e : 64 + (off + k) ≡ 64 + off + k = omega arith in
      ap whole.byte e
      ∙ ap (λ (s : Slice). s.byte (64 + off + k))
          (write_all-append ws (copied (64 + off) bs ∷ vs) b)
      ∙ byte_behind-write_all (64 + off) (64 + off + k) vs _ h (omega arith)
      ∙ byte-copy_at (64 + off) k bs (write_all ws b) lt)

pub bytes_at-raw :
    (off : ℕ) (bs : Bytes) (ws vs : List Write) (b : Slice)
    → All (λ w. finish w ≤ 64 + off) vs
    → bytes_at off (length bs) (from 64 (write_all (ws ++ (raw (64 + off) bs ∷ vs)) b)) ≡ bs
bytes_at-raw off bs ws vs b h =
    let whole = write_all (ws ++ (raw (64 + off) bs ∷ vs)) b in
    bytes_at-eq off bs (from 64 whole) (λ k lt.
      let e : 64 + (off + k) ≡ 64 + off + k = omega arith in
      ap whole.byte e
      ∙ ap (λ (s : Slice). s.byte (64 + off + k)) (write_all-append ws (raw (64 + off) bs ∷ vs) b)
      ∙ byte_behind-write_all (64 + off) (64 + off + k) vs _ h (omega arith)
      ∙ byte-put_encoder (64 + off) k bs (write_all ws b) lt)
