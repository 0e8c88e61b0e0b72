-- ===== src/Smb2/Request/SetInfo.antt =====
-- internal/smb2/request.go: SetInfoRequest and SetInfoRequestDecoder.
use smb_mem_lib.Prelude.{
  ℕ, ◌+◌, ◌%◌, ◌^◌, ◌<◌, ◌≡◌, refl, Bool, true, false, List, ◌++◌, [], ◌∷◌, Bytes, length, ltb, not,
  Option, none, some, ◌==◌, if◌then◌else◌, arith,
}
use smb_mem_lib.Wire.{
  Slice, Write, u8, u16, u32, raw, write_all, Decoded, rejected, decoded, ◌>>=◌, zeroed, from,
  uint16, uint32, rest_of, bytes_at,
}
use smb_mem_lib.Wire.Words.{word8, word32, word64}
use smb_mem_lib.Wire.Writes.{bytes_at-raw}
use smb_mem_lib.Smb2.Packet.{
  PacketHeader, encode_header, FileId, file_id_writes, file_id_at, IsFileId, given_size,
}
use smb_mem_lib.Smb2.Packet.Headers.{len-encode_header, fault-write_all-encode_header}

pub record SetInfoRequest : Type 0 where
  pub info_type : ℕ
  pub file_info_class : ℕ
  pub additional_information : ℕ
  pub file_id : FileId
  pub input : Option Bytes

-- The writes of input
abbrev input_writes : Option Bytes → List Write
input_writes none = []
input_writes (some bs) = u16 (64 + 8) (64 + 32) ∷ raw (64 + 32) bs ∷ u32 (64 + 4) (length bs) ∷ []

-- Size
abbrev pub size : SetInfoRequest → ℕ
size c = given_size (64 + 32) c.input

-- The writes of Encode
abbrev fields : SetInfoRequest → List Write
fields c =
    u16 64 33
    ∷ u8 (64 + 2) c.info_type
    ∷ u8 (64 + 3) c.file_info_class
    ∷ u32 (64 + 12) c.additional_information
    ∷ (file_id_writes (64 + 16) c.file_id)

-- Encode
pub encode : PacketHeader → SetInfoRequest → Slice → Slice
encode h c pkt =
    write_all (fields c ++ input_writes c.input) (encode_header (record h { command = 17 }) pkt)

-- Buffer
buffer : Slice → Decoded Bytes
unfolding rest_of
buffer r = rest_of 32 r

-- IsInvalid
is_invalid : Slice → Bool
is_invalid r =
    if ltb r.len 32
    then true
    else if not (uint16 0 r == 33)
    then true
    else ltb (r.len + 64) ((uint16 8 r + uint32 4 r) % 2 ^ 32)

-- The fields, read behind IsInvalid
pub decode : Slice → Decoded SetInfoRequest
decode r =
    if is_invalid r
    then rejected
    else (buffer r >>= λ input_bytes. decoded (record {
      info_type = r.byte 2;
      file_info_class = r.byte 3;
      additional_information = uint32 12 r;
      file_id = file_id_at 16 r;
      input = some input_bytes;
    }))

-- What fits into the fields
abbrev pub IsWire : SetInfoRequest → Type 0
IsWire c =
    (c.info_type < 2 ^ 8)
    × (c.file_info_class < 2 ^ 8)
    × (c.additional_information < 2 ^ 32)
    × IsFileId c.file_id
    × (given_size 0 c.input < 2 ^ 31)

module _ (h : PacketHeader) (c : SetInfoRequest) (input : Bytes)
    (w : IsWire (record c { input = some input })) where
  abbrev full : SetInfoRequest
  full = record c { input = some input }

  abbrev pub sent : Slice
  sent = encode h full (zeroed (size full))

  sent_len : sent.len ≡ size full
  unfolding encode
  sent_len = len-encode_header (record h { command = 17 }) (zeroed (size full))

  sent_fault : sent.fault ≡ false
  unfolding encode
  sent_fault =
      fault-write_all-encode_header (record h { command = 17 }) (zeroed (size full)) (size full)
        (fields full ++ input_writes full.input) refl refl (ground arith) (ground arith)

  sent_bytes : bytes_at 32 (length input) (from 64 sent) ≡ input
  unfolding encode
  sent_bytes =
      bytes_at-raw 32 input (fields full ++ (u16 (64 + 8) (64 + 32) ∷ []))
        (u32 (64 + 4) (length input) ∷ [])
        (encode_header (record h { command = 17 }) (zeroed (size full))) (omega arith)

  sent_valid : is_invalid (from 64 sent) ≡ false
  unfolding encode is_invalid
  sent_valid = ground (arith, w, sent_len, word32 (length input))

  sent_accessor : buffer (from 64 sent) ≡ decoded input
  unfolding encode buffer rest_of
  sent_accessor = ground (arith, w, sent_len, sent_bytes, word32 (length input))

  pub decode-encode : (sent.fault ≡ false) × (decode (from 64 sent) ≡ decoded full)
  unfolding encode decode
  decode-encode = (
    sent_fault,
    rw (sent_valid, sent_accessor)
        (ground (
          arith,
          word8 full.info_type w.0,
          word8 full.file_info_class w.1,
          word32 full.additional_information w.2,
          word64 full.file_id.persistent w.3.0,
          word64 full.file_id.volatile w.3.1,
        )),
  )
