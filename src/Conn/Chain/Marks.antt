-- ===== src/Conn/Chain/Marks.antt =====
-- compoundContext.Encode of server/compound.go: the headers of marked responses.
use smb_mem_lib.Prelude.{ℕ, ◌^◌, ◌<◌, ◌≤◌, ◌≡◌, refl, ap, ◌∙◌, Bool, true, false, arith}
use smb_mem_lib.Wire.{Slice, put32, uint16, uint32}
use smb_mem_lib.Wire.Words.{word32}
use smb_mem_lib.Smb2.Packet.Codec.{has_related, is_magic, next_command}
use smb_mem_lib.Conn.Chain.{or_related, set_related, set_next}

-- A response as encodeHeader makes it: it has no NextCommand, and its flags are bytes.
abbrev pub IsResponse : Slice → Type 0
IsResponse p =
    (64 ≤ p.len)
    × (p.len < 2 ^ 31)
    × (is_magic 0xfe p ≡ true)
    × (uint16 4 p ≡ 64)
    × (next_command p ≡ 0)
    × (uint32 16 p < 2 ^ 32)

or_related-has_related :
    (x : ℕ) → x < 2 ^ 32 → (or_related x < 2 ^ 32) × (has_related (or_related x) ≡ true)
or_related-has_related x lt = ground (arith, lt)

-- The marks of a header that the receiver reads
abbrev pub IsMarked : ℕ → Bool → Slice → Type 0
IsMarked next related q =
    (is_magic 0xfe q ≡ true)
    × (uint16 4 q ≡ 64)
    × (next_command q ≡ next)
    × (has_related (uint32 16 q) ≡ related)

module _ (p : Slice) (r : IsResponse p) where
  pub last-IsMarked : IsMarked 0 true (set_related false p)
  last-IsMarked =
      let f = or_related (uint32 16 p) in
      let k = or_related-has_related (uint32 16 p) r.5 in
      let e : uint32 16 (put32 16 f p) ≡ f = ground (arith, word32 f k.0) in
      (r.2, r.3, r.4, ap has_related e ∙ k.1)

  pub first-IsMarked :
      (n : ℕ)
      → n < 2 ^ 32
      → has_related (uint32 16 p) ≡ false
      → IsMarked n false (set_next n (set_related true p))
  first-IsMarked n lt plain = (r.2, r.3, ground (arith, word32 n lt), plain)

  pub inner-IsMarked : (n : ℕ) → n < 2 ^ 32 → IsMarked n true (set_next n (set_related false p))
  inner-IsMarked n lt = (r.2, r.3, ground (arith, word32 n lt), last-IsMarked.3)

-- A packet whose header is the same has the same marks.
pub IsMarked-same :
    (n : ℕ) (b : Bool) (v q : Slice)
    → ((k : ℕ) → k < 64 → v.byte k ≡ q.byte k)
    → IsMarked n b q
    → IsMarked n b v
IsMarked-same n b v q h m =
    let e16 : uint32 16 v ≡ uint32 16 q =
      rw (h 16 (omega arith), h 17 (omega arith), h 18 (omega arith), h 19 (omega arith)) refl in
    let e20 : uint32 20 v ≡ uint32 20 q =
      rw (h 20 (omega arith), h 21 (omega arith), h 22 (omega arith), h 23 (omega arith)) refl in
    let e4 : uint16 4 v ≡ uint16 4 q = rw (h 4 (omega arith), h 5 (omega arith)) refl in
    let e0 : is_magic 0xfe v ≡ is_magic 0xfe q =
      rw (h 0 (omega arith), h 1 (omega arith), h 2 (omega arith), h 3 (omega arith)) refl in
    (e0 ∙ m.0, e4 ∙ m.1, e20 ∙ m.2, ap has_related e16 ∙ m.3)
