-- ===== src/Smb2/Request/QueryInfo.antt =====
-- internal/smb2/request.go: QueryInfoRequest and QueryInfoRequestDecoder.
use smb_mem_lib.Prelude.{
  ℕ, ◌+◌, ◌%◌, ◌^◌, ◌<◌, ◌≡◌, refl, Bool, true, false, List, ◌++◌, [], ◌∷◌, Bytes, length, ltb, not,
  Option, none, some, ◌==◌, if◌then◌else◌, arith,
}
use smb_mem_lib.Wire.{
  Slice, Write, u8, u16, u32, raw, write_all, Decoded, rejected, decoded, zeroed, from, uint16,
  uint32,
}
use smb_mem_lib.Wire.Words.{word8, word32, word64}
use smb_mem_lib.Smb2.Packet.{
  PacketHeader, encode_header, FileId, file_id_writes, file_id_at, IsFileId, given_size,
}
use smb_mem_lib.Smb2.Packet.Headers.{len-encode_header, fault-write_all-encode_header}

pub record QueryInfoRequest : Type 0 where
  pub info_type : ℕ
  pub file_info_class : ℕ
  pub output_buffer_length : ℕ
  pub additional_information : ℕ
  pub flags : ℕ
  pub file_id : FileId
  pub input : Option Bytes

-- The writes of input
abbrev input_writes : Option Bytes → List Write
input_writes none = []
input_writes (some bs) = u16 (64 + 8) (64 + 40) ∷ raw (64 + 40) bs ∷ u32 (64 + 12) (length bs) ∷ []

-- Size
abbrev pub size : QueryInfoRequest → ℕ
size c = given_size (64 + 40) c.input

-- The writes of Encode
abbrev fields : QueryInfoRequest → List Write
fields c =
    u16 64 41
    ∷ u8 (64 + 2) c.info_type
    ∷ u8 (64 + 3) c.file_info_class
    ∷ u32 (64 + 4) c.output_buffer_length
    ∷ u32 (64 + 16) c.additional_information
    ∷ u32 (64 + 20) c.flags
    ∷ (file_id_writes (64 + 24) c.file_id)

-- Encode
pub encode : PacketHeader → QueryInfoRequest → Slice → Slice
encode h c pkt =
    write_all (fields c ++ input_writes c.input) (encode_header (record h { command = 16 }) pkt)

-- IsInvalid
is_invalid : Slice → Bool
is_invalid r =
    if ltb r.len 40
    then true
    else if not (uint16 0 r == 41)
    then true
    else ltb (r.len + 64) ((uint16 8 r + uint32 12 r) % 2 ^ 32)

-- What the decoder reads
pub record QueryInfoRequestView : Type 0 where
  pub info_type : ℕ
  pub file_info_class : ℕ
  pub output_buffer_length : ℕ
  pub input_buffer_offset : ℕ
  pub input_buffer_length : ℕ
  pub additional_information : ℕ
  pub flags : ℕ
  pub file_id : FileId

-- The fields, read behind IsInvalid
pub decode : Slice → Decoded QueryInfoRequestView
decode r =
    if is_invalid r
    then rejected
    else (decoded (record {
      info_type = r.byte 2;
      file_info_class = r.byte 3;
      output_buffer_length = uint32 4 r;
      input_buffer_offset = uint16 8 r;
      input_buffer_length = uint32 12 r;
      additional_information = uint32 16 r;
      flags = uint32 20 r;
      file_id = file_id_at 24 r;
    }))

-- What fits into the fields
abbrev pub IsWire : QueryInfoRequest → Type 0
IsWire c =
    (c.info_type < 2 ^ 8)
    × (c.file_info_class < 2 ^ 8)
    × (c.output_buffer_length < 2 ^ 32)
    × (c.additional_information < 2 ^ 32)
    × (c.flags < 2 ^ 32)
    × IsFileId c.file_id
    × (given_size 0 c.input < 2 ^ 31)

module _ (h : PacketHeader) (c : QueryInfoRequest) (input : Bytes)
    (w : IsWire (record c { input = some input })) where
  abbrev full : QueryInfoRequest
  full = record c { input = some input }

  abbrev pub sent : Slice
  sent = encode h full (zeroed (size full))

  sent_len : sent.len ≡ size full
  unfolding encode
  sent_len = len-encode_header (record h { command = 16 }) (zeroed (size full))

  sent_fault : sent.fault ≡ false
  unfolding encode
  sent_fault =
      fault-write_all-encode_header (record h { command = 16 }) (zeroed (size full)) (size full)
        (fields full ++ input_writes full.input) refl refl (ground arith) (ground arith)

  sent_valid : is_invalid (from 64 sent) ≡ false
  unfolding encode is_invalid
  sent_valid = ground (arith, w, sent_len, word32 (length input))

  pub decode-encode :
      (sent.fault ≡ false)
      × (decode (from 64 sent)
          ≡ decoded (record {
            info_type = full.info_type;
            file_info_class = full.file_info_class;
            output_buffer_length = full.output_buffer_length;
            input_buffer_offset = 104;
            input_buffer_length = length input;
            additional_information = full.additional_information;
            flags = full.flags;
            file_id = full.file_id;
          }))
  unfolding encode decode
  decode-encode = (
    sent_fault,
    rw (sent_valid) (
        ground (
          arith,
          word8 full.info_type w.0,
          word8 full.file_info_class w.1,
          word32 full.output_buffer_length w.2,
          word32 full.additional_information w.3,
          word32 full.flags w.4,
          word64 full.file_id.persistent w.5.0,
          word64 full.file_id.volatile w.5.1,
          w,
          word32 (length input),
        )),
  )
