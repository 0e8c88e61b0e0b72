-- ===== src/Smb2/Request/Read.antt =====
-- internal/smb2/request.go: ReadRequest and ReadRequestDecoder.
use smb_mem_lib.Prelude.{
  ℕ, ◌+◌, ◌%◌, ◌^◌, ◌<◌, ◌≡◌, refl, Bool, true, false, List, ◌++◌, [], ◌∷◌, Bytes, length, ltb, not,
  ◌==◌, if◌then◌else◌, arith,
}
use smb_mem_lib.Wire.{
  Slice, Write, u8, u16, u32, u64, write_all, Decoded, rejected, decoded, zeroed, from, uint16,
  uint32, uint64, encoders,
}
use smb_mem_lib.Wire.Words.{word8, word32, word64}
use smb_mem_lib.Smb2.Packet.{
  PacketHeader, encode_header, FileId, file_id_writes, file_id_at, IsFileId,
}
use smb_mem_lib.Smb2.Packet.Contexts.{encoders_size}
use smb_mem_lib.Smb2.Packet.Headers.{
  len-encode_header, byte-encode_header, fault-write_all-encode_header,
}

pub record ReadRequest : Type 0 where
  pub padding : ℕ
  pub flags : ℕ
  pub read_length : ℕ
  pub offset : ℕ
  pub file_id : FileId
  pub minimum_count : ℕ
  pub channel : ℕ
  pub remaining_bytes : ℕ
  pub read_channel_info : List Bytes

-- The loop over ReadChannelInfo
abbrev read_channel_writes : List Bytes → List Write
read_channel_writes [] = []
read_channel_writes (e ∷ es) = u16 (64 + 44) (64 + 48) ∷ encoders (64 + 48) (e ∷ es)

-- Size
abbrev pub size : ReadRequest → ℕ
size c =
    if length c.read_channel_info == 0
    then 64 + 48 + 1
    else 64 + 48 + encoders_size c.read_channel_info

-- The writes of Encode
abbrev fields : ReadRequest → List Write
fields c =
    u16 64 49
    ∷ u8 (64 + 2) c.padding
    ∷ u8 (64 + 3) c.flags
    ∷ u32 (64 + 4) c.read_length
    ∷ u64 (64 + 8) c.offset
    ∷ (file_id_writes (64 + 16) c.file_id
        ++ (u32 (64 + 32) c.minimum_count
            ∷ u32 (64 + 36) c.channel
            ∷ u32 (64 + 40) c.remaining_bytes
            ∷ []))

-- Encode
pub encode : PacketHeader → ReadRequest → Slice → Slice
encode h c pkt =
    write_all
      (fields c
        ++ (read_channel_writes c.read_channel_info
            ++ (u16 (64 + 46) (encoders_size c.read_channel_info) ∷ [])))
      (encode_header (record h { command = 8 }) pkt)

-- IsInvalid
is_invalid : Slice → Bool
is_invalid r =
    if ltb r.len 48
    then true
    else if not (uint16 0 r == 49)
    then true
    else ltb r.len ((uint16 44 r + uint16 46 r) % 2 ^ 16)

-- What the decoder reads
pub record ReadRequestView : Type 0 where
  pub padding : ℕ
  pub flags : ℕ
  pub read_length : ℕ
  pub offset : ℕ
  pub file_id : FileId
  pub minimum_count : ℕ
  pub channel : ℕ
  pub remaining_bytes : ℕ
  pub read_channel_info_offset : ℕ
  pub read_channel_info_length : ℕ

-- The fields, read behind IsInvalid
pub decode : Slice → Decoded ReadRequestView
decode r =
    if is_invalid r
    then rejected
    else (decoded (record {
      padding = r.byte 2;
      flags = r.byte 3;
      read_length = uint32 4 r;
      offset = uint64 8 r;
      file_id = file_id_at 16 r;
      minimum_count = uint32 32 r;
      channel = uint32 36 r;
      remaining_bytes = uint32 40 r;
      read_channel_info_offset = uint16 44 r;
      read_channel_info_length = uint16 46 r;
    }))

-- What fits into the fields
abbrev pub IsWire : ReadRequest → Type 0
IsWire c =
    (c.padding < 2 ^ 8)
    × (c.flags < 2 ^ 8)
    × (c.read_length < 2 ^ 32)
    × (c.offset < 2 ^ 64)
    × IsFileId c.file_id
    × (c.minimum_count < 2 ^ 32)
    × (c.channel < 2 ^ 32)
    × (c.remaining_bytes < 2 ^ 32)

module _ (h : PacketHeader) (c : ReadRequest)
    (w : IsWire (record c { read_channel_info = [] })) where
  abbrev full : ReadRequest
  full = record c { read_channel_info = [] }

  abbrev pub sent : Slice
  sent = encode h full (zeroed (size full))

  sent_len : sent.len ≡ size full
  unfolding encode
  sent_len = len-encode_header (record h { command = 8 }) (zeroed (size full))

  sent_fault : sent.fault ≡ false
  unfolding encode
  sent_fault =
      fault-write_all-encode_header (record h { command = 8 }) (zeroed (size full)) (size full)
        (fields full
          ++ (read_channel_writes full.read_channel_info
              ++ (u16 (64 + 46) (encoders_size full.read_channel_info) ∷ [])))
        refl refl (ground arith) (ground arith)

  sent_valid : is_invalid (from 64 sent) ≡ false
  unfolding encode is_invalid
  sent_valid = ground (
    arith,
    w,
    sent_len,
    byte-encode_header (record h { command = 8 }) (zeroed (size full)) 108 (omega arith),
    byte-encode_header (record h { command = 8 }) (zeroed (size full)) 109 (omega arith),
  )

  pub decode-encode :
      (sent.fault ≡ false)
      × (decode (from 64 sent)
          ≡ decoded (record {
            padding = full.padding;
            flags = full.flags;
            read_length = full.read_length;
            offset = full.offset;
            file_id = full.file_id;
            minimum_count = full.minimum_count;
            channel = full.channel;
            remaining_bytes = full.remaining_bytes;
            read_channel_info_offset = 0;
            read_channel_info_length = 0;
          }))
  unfolding encode decode
  decode-encode = (
    sent_fault,
    rw (sent_valid) (
        ground (
          arith,
          word8 full.padding w.0,
          word8 full.flags w.1,
          word32 full.read_length w.2,
          word64 full.offset w.3,
          word64 full.file_id.persistent w.4.0,
          word64 full.file_id.volatile w.4.1,
          word32 full.minimum_count w.5,
          word32 full.channel w.6,
          word32 full.remaining_bytes w.7,
          byte-encode_header (record h { command = 8 }) (zeroed (size full)) 108 (omega arith),
          byte-encode_header (record h { command = 8 }) (zeroed (size full)) 109 (omega arith),
        )),
  )
