-- ===== src/Smb2/Packet/RoundTrip.antt =====
-- encodeHeader and PacketCodec of internal/smb2/packet.go.
use smb_mem_lib.Prelude.{ℕ, ◌*◌, ◌%◌, ◌^◌, ◌<◌, ◌≤◌, ◌≡◌, true, false, arith}
use smb_mem_lib.Wire.{Slice, zeroed, uint16, uint32, decoded}
use smb_mem_lib.Wire.Words.{word16, word32, word64}
use smb_mem_lib.Smb2.Packet.{PacketHeader, encode_header}
use smb_mem_lib.Smb2.Packet.Headers.{len-encode_header}
use smb_mem_lib.Smb2.Packet.Codec.{
  is_magic, is_smb1, command, is_smb1_negotiate, is_broken, is_invalid, header_of, next_command,
}

-- The fields fit, and no channel sequence or async id takes the place of the status or the tree id.
abbrev pub IsWire : PacketHeader → Type 0
IsWire h =
    (h.credit_charge < 2 ^ 16)
    × (h.channel_sequence ≡ 0)
    × (h.status < 2 ^ 32)
    × (h.command < 2 ^ 16)
    × (h.credit_request_response < 2 ^ 16)
    × (h.flags < 2 ^ 32)
    × (h.message_id < 2 ^ 64)
    × (h.async_id ≡ 0)
    × (h.tree_id < 2 ^ 32)
    × (h.session_id < 2 ^ 64)

module _ (h : PacketHeader) (n : ℕ) (room : 64 ≤ n) (w : IsWire h) where
  abbrev sent : Slice
  sent = encode_header h (zeroed n)

  sent_status : uint32 8 sent ≡ h.status
  unfolding encode_header
  sent_status = ground (arith, w, word32 h.status w.2)

  sent_channel : uint16 8 sent ≡ h.status % 2 ^ 16
  unfolding encode_header
  sent_channel = ground (arith, w, word32 h.status w.2)

  sent_tree : uint32 36 sent ≡ h.tree_id
  unfolding encode_header
  sent_tree = ground (arith, w, word32 h.tree_id w.8)

  sent_async : uint32 32 sent ≡ 0
  unfolding encode_header
  sent_async = ground (arith, w)

  sent_magic : (is_magic 0xfe sent ≡ true) × (is_magic 0xff sent ≡ false)
  unfolding encode_header
  sent_magic = ground arith

  sent_len : sent.len ≡ n
  sent_len = len-encode_header h (zeroed n)

  sent_next : next_command sent ≡ 0
  unfolding encode_header
  sent_next = ground arith

  sent_struct : uint16 4 sent ≡ 64
  unfolding encode_header
  sent_struct = ground arith

  sent_smb2 : is_smb1 sent ≡ decoded false
  unfolding is_smb1
  sent_smb2 = rw (sent_magic.1) (ground (arith, room, sent_len))

  sent_word : uint16 12 sent ≡ h.command
  unfolding encode_header
  sent_word = ground (arith, w, word16 h.command w.3)

  sent_command : command sent ≡ decoded h.command
  unfolding command
  sent_command = rw (sent_smb2, sent_word) (ground (arith, room, sent_len))

  sent_valid : is_invalid sent ≡ decoded false
  unfolding is_invalid is_smb1_negotiate is_broken
  sent_valid = rw (sent_smb2, sent_magic.0, sent_struct, sent_next) (ground (arith, room, sent_len))

  sent_fields :
      header_of sent
      ≡ record h { channel_sequence = h.status % 2 ^ 16; async_id = h.tree_id * 2 ^ 32 }
  unfolding encode_header header_of
  sent_fields =
      rw (sent_status, sent_channel, sent_tree, sent_async)
        (ground (
          arith,
          word16 h.credit_charge w.0,
          word16 h.command w.3,
          word16 h.credit_request_response w.4,
          word32 h.flags w.5,
          word64 h.message_id w.6,
          word64 h.session_id w.9,
        ))

  -- A header whose fields fit, with no channel sequence and no async id, that encodeHeader writes into a
  -- fresh slice of at least 64 bytes, is accepted by IsInvalid, has its command as Command, and is read
  -- back, but that ChannelSequence reads the low half of the status and AsyncId the tree id above 32 zero
  -- bits.
  pub decode-encode_header :
      (is_invalid sent ≡ decoded false)
      × (command sent ≡ decoded h.command)
      × (header_of sent
          ≡ record h { channel_sequence = h.status % 2 ^ 16; async_id = h.tree_id * 2 ^ 32 })
  decode-encode_header = (sent_valid, sent_command, sent_fields)
