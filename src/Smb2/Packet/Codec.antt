-- ===== src/Smb2/Packet/Codec.antt =====
-- internal/smb2/packet.go: PacketCodec and TransformCodec as views of a packet.
use smb_mem_lib.Prelude.{
  ℕ, ◌/◌, ◌%◌, Bool, true, false, ◌&&◌, ◌||◌, not, Bytes, ltb, leb, ◌==◌, if◌then◌else◌,
}
use smb_mem_lib.Wire.{
  Slice, uint16, uint32, uint64, Decoded, panicked, decoded, ◌>>=◌, slice, rest_of,
}
use smb_mem_lib.Smb2.Packet.{PacketHeader}

-- SMB_COM_NEGOTIATE
abbrev smb_com_negotiate : ℕ
smb_com_negotiate = 0x72

-- `u & 4 == 4`, for SMB2_FLAGS_RELATED_OPERATIONS
abbrev pub has_related : ℕ → Bool
has_related flags = flags / 4 % 2 == 1

-- The four bytes of a protocol id, the first of them `first`.
abbrev pub is_magic : ℕ → Slice → Bool
is_magic first p = p.byte 0 == first && (p.byte 1 == b'S' && (p.byte 2 == b'M' && p.byte 3 == b'B'))

-- IsSmb1: ProtocolId is p[:4].
unfoldable pub is_smb1 : Slice → Decoded Bool
is_smb1 p = if ltb p.len 4 then panicked else decoded (is_magic 0xff p)

-- Command: p[4] for SMB1, and p[12:14].
unfoldable pub command : Slice → Decoded ℕ
command p = is_smb1 p >>= λ old.
    if old
    then (if ltb p.len 5 then panicked else decoded (p.byte 4))
    else (if ltb p.len 14 then panicked else decoded (uint16 12 p))

-- `p.IsSmb1() && p.Command() == SMB_COM_NEGOTIATE`
unfoldable pub is_smb1_negotiate : Slice → Decoded Bool
is_smb1_negotiate p = is_smb1 p >>= λ old.
    if old then (command p >>= λ c. decoded (c == smb_com_negotiate)) else decoded false

-- NextCommand, within the slice
abbrev pub next_command : Slice → ℕ
next_command p = uint32 20 p

-- The tests of IsInvalid for SMB2
unfoldable pub is_broken : Slice → Bool
is_broken p =
    if ltb p.len 64
    then true
    else if not (is_magic 0xfe p)
    then true
    else if not (uint16 4 p == 64)
    then true
    else if not (next_command p % 8 == 0)
    then true
    else leb p.len (next_command p)

-- IsInvalid
unfoldable pub is_invalid : Slice → Decoded Bool
is_invalid p = is_smb1_negotiate p >>= λ old. if old then decoded false else decoded (is_broken p)

-- IsCompound, IsCompoundFirst and IsCompoundLast, within the slice
unfoldable pub is_compound : Slice → Bool
is_compound p = has_related (uint32 16 p) || not (next_command p == 0)

unfoldable pub is_compound_first : Slice → Bool
is_compound_first p = not (has_related (uint32 16 p)) && not (next_command p == 0)

unfoldable pub is_compound_last : Slice → Bool
is_compound_last p = has_related (uint32 16 p) && next_command p == 0

-- The fields of a header that is not SMB1's
unfoldable pub header_of : Slice → PacketHeader
header_of p = record {
  credit_charge = uint16 6 p;
  channel_sequence = uint16 8 p;
  status = uint32 8 p;
  command = uint16 12 p;
  credit_request_response = uint16 14 p;
  flags = uint32 16 p;
  message_id = uint64 24 p;
  async_id = uint64 32 p;
  tree_id = uint32 36 p;
  session_id = uint64 40 p;
}

-- TransformCodec: IsInvalid, and the fields behind it
unfoldable pub is_invalid_transform : Slice → Bool
is_invalid_transform p = if ltb p.len 52 then true else not (is_magic 0xfd p)

pub record TransformHeader : Type 0 where
  pub signature : Decoded Bytes
  pub nonce : Decoded Bytes
  pub original_message_size : ℕ
  pub flags : ℕ
  pub session_id : ℕ
  pub associated_data : Decoded Bytes
  pub encrypted_data : Decoded Bytes

unfoldable pub transform_of : Slice → TransformHeader
transform_of p = record {
  signature = slice 4 20 p;
  nonce = slice 20 36 p;
  original_message_size = uint32 36 p;
  flags = uint16 42 p;
  session_id = uint64 44 p;
  associated_data = slice 20 52 p;
  encrypted_data = rest_of 52 p;
}
