-- ===== src/MemoryFs/Ghost/Keys.antt =====
-- makeGhostKey of memoryshare/memory_fs.go, read back.
use smb_mem_lib.Prelude.{
  ℕ, zero, suc, ◌+◌, ◌-◌, ◌*◌, ◌/◌, ◌%◌, ◌^◌, ◌<◌, ◌≡◌, ◌↔◌, refl, ap, Option, none, some, [], ◌∷◌,
  Bytes, arith, ◌==◌, if◌then◌else◌,
}
use smb_mem_lib.MemoryFs.Ghost.{decimal_before, make_ghost_key}

-- Reads a decimal number up to a colon.
read_key : ℕ → Bytes → Option (ℕ × Bytes)
read_key n [] = none
read_key n (c ∷ s) =
    let more = read_key (n * 10 + (c - b'0')) s in if c == b':' then some (n, s) else more

read_decimal :
    (fuel n : ℕ) (tail : Bytes)
    → n < 10 ^ fuel
    → read_key 0 (decimal_before fuel n tail) ≡ read_key n tail
unfolding read_key decimal_before
read_decimal zero n tail h = ap (λ (m : ℕ). read_key m tail) (omega arith)
read_decimal (suc fuel) n tail h =
    ground (arith, read_decimal fuel (n / 10) ((b'0' + n % 10) ∷ tail))

read_key-make_ghost_key :
    (session : ℕ) (path : Bytes)
    → session < 2 ^ 64
    → read_key 0 (make_ghost_key session path) ≡ some (session, path)
unfolding make_ghost_key read_key
read_key-make_ghost_key session path h = read_decimal 20 session (b':' ∷ path) (omega arith)

-- Two uint64 session ids and two paths with one registry key are the same session and the same path.
pub make_ghost_key_injective :
    (s t : ℕ) (p q : Bytes)
    → s < 2 ^ 64
    → t < 2 ^ 64
    → make_ghost_key s p ≡ make_ghost_key t q
    → (s ≡ t) × (p ≡ q)
make_ghost_key_injective s t p q hs ht e =
    ground (arith, read_key-make_ghost_key s p hs, read_key-make_ghost_key t q ht)

-- For uint64 session ids: two keys of the registry are equal exactly where the sessions are and the
-- paths are.
pub make_ghost_key_iff :
    (s t : ℕ) (p q : Bytes)
    → s < 2 ^ 64
    → t < 2 ^ 64
    → (make_ghost_key s p ≡ make_ghost_key t q) ↔ ((s ≡ t) × (p ≡ q))
make_ghost_key_iff s t p q hs ht = (make_ghost_key_injective s t p q hs ht, λ e. rw (e.0, e.1) refl)
