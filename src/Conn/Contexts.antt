-- ===== src/Conn/Contexts.antt =====
-- The inner loop of runReciever in server/conn.go at a packet with no context before it.
use smb_mem_lib.Prelude.{
  ℕ, suc, ◌%◌, ◌<◌, ◌≡◌, ◌⊎◌, inl, inr, Bool, true, false, ◌&&◌, Bool-cases, List, [], ◌∷◌, ◌==◌,
  arith,
}
use smb_mem_lib.Wire.{Slice, uint32}
use smb_mem_lib.Smb2.Packet.Codec.{has_related, next_command, is_compound_first, is_compound_last}
use smb_mem_lib.Conn.{Conn, Delivery, panic, round, receive}
use smb_mem_lib.Conn.Chain.Rounds.{IsHead, head-is_invalid}

abbrev pub is_empty : List Delivery → Bool
is_empty [] = true
is_empty (d ∷ ds) = false

-- Whether a packet is related to one before it, and has none behind it
abbrev pub is_related_end : Slice → Bool
is_related_end p = has_related (uint32 16 p) && next_command p == 0

-- A message that begins with an SMB2 header of 64 bytes, whose NextCommand is a multiple of 8 within the
-- message, at the loop of runReciever with no session in use: if its first packet is related and has no
-- NextCommand, the loop panics and hands on nothing; otherwise it hands on a packet at least.
pub receive-lone_last :
    (n : ℕ) (c : Conn) (e : Bool) (p : Slice)
    → IsHead p
    → next_command p % 8 ≡ 0
    → next_command p < p.len
    → ((is_related_end p ≡ true)
        × ((receive (suc n) c false e [] p).delivered ≡ [])
        × ((receive (suc n) c false e [] p).end ≡ panic))
      ⊎ ((is_related_end p ≡ false) × (is_empty (receive (suc n) c false e [] p).delivered ≡ false))
unfolding receive round is_compound_first is_compound_last
receive-lone_last n c e p head whole small = elim (Bool-cases (is_related_end p)) [
  | inl lone ↦ inl (
    lone,
    rw (head-is_invalid p head whole small) (ground (arith, head, lone)),
    rw (head-is_invalid p head whole small) (ground (arith, head, lone)),
  )
  | inr other ↦
      inr (other, rw (head-is_invalid p head whole small) (ground (arith, head, small, other)))
]
