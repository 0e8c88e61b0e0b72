-- ===== src/Conn/Chain/Rounds.antt =====
-- A round of runReciever on a packet in a chain.
use smb_mem_lib.Prelude.{◌%◌, ◌<◌, ◌≤◌, ◌≡◌, refl, true, false, List, ◌∷◌, arith}
use smb_mem_lib.Wire.{Slice, from, uint16, uint32, uint64, decoded}
use smb_mem_lib.Smb2.Packet.Codec.{
  has_related, is_magic, is_smb1, is_smb1_negotiate, is_broken, is_invalid, next_command,
  is_compound_first, is_compound_last,
}
use smb_mem_lib.Conn.{CompoundContext, last, more, upto, open_context, round, message_id}

-- The first bytes of an SMB2 packet
abbrev pub IsHead : Slice → Type 0
IsHead v = (64 ≤ v.len) × (is_magic 0xfe v ≡ true) × (uint16 4 v ≡ 64)

module _ (v : Slice) (head : IsHead v) where
  is_magic-old : is_magic 0xff v ≡ false
  is_magic-old = ground (arith, head)

  head-is_smb1 : is_smb1 v ≡ decoded false
  unfolding is_smb1
  head-is_smb1 = rw is_magic-old (ground (arith, head))

  pub head-is_invalid :
      (next_command v % 8 ≡ 0) → next_command v < v.len → is_invalid v ≡ decoded false
  unfolding is_invalid is_smb1_negotiate is_broken
  head-is_invalid whole small =
      rw (head-is_smb1, head.1, head.2) (ground (arith, head, whole, small))

  pub round_inner :
      (cs : List CompoundContext)
      → next_command v % 8 ≡ 0
      → next_command v < v.len
      → 0 < next_command v
      → round cs v ≡ more (upto (next_command v) v) (open_context v cs) (from (next_command v) v)
  unfolding round is_compound_last
  round_inner cs whole small some_next =
      rw (head-is_invalid whole small) (ground (arith, head, small, some_next))

  pub round_last :
      (c : CompoundContext) (cs : List CompoundContext)
      → next_command v ≡ 0
      → has_related (uint32 16 v) ≡ true
      → round (c ∷ cs) v ≡ last v (record c { last_msg_id = message_id v } ∷ cs)
  unfolding round is_compound_first is_compound_last
  round_last c cs end related =
      rw (head-is_invalid (omega (arith, end)) (omega (arith, head, end)), end, related)
        (ground (arith, head))

  -- A packet with a NextCommand that is not related, or has a context before it, leaves a context.
  pub open_context_first :
      (cs : List CompoundContext)
      → 0 < next_command v
      → has_related (uint32 16 v) ≡ false
      → open_context v cs
        ≡ record { tree_id = uint32 36 v; session_id = uint64 40 v; last_msg_id = 0 } ∷ cs
  unfolding is_compound_first
  open_context_first cs some_next first = rw first (ground (arith, some_next))

  pub open_context_related :
      (cs : List CompoundContext) → has_related (uint32 16 v) ≡ true → open_context v cs ≡ cs
  unfolding is_compound_first
  open_context_related cs related = rw related refl
