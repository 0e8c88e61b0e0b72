-- ===== src/Smb2/Request/QueryDirectory.antt =====
-- internal/smb2/request.go: QueryDirectoryRequest and QueryDirectoryRequestDecoder.
use smb_mem_lib.Prelude.{
  ℕ, ◌+◌, ◌-◌, ◌*◌, ◌%◌, ◌^◌, ◌<◌, ◌≡◌, refl, Bool, true, false, List, ◌++◌, [], ◌∷◌, Bytes, length,
  ltb, not, ◌==◌, if◌then◌else◌, arith,
}
use smb_mem_lib.Wire.{
  Slice, Write, u8, u16, u32, write_all, Decoded, rejected, decoded, ◌>>=◌, zeroed, from, uint16,
  uint32, slice, bytes_at, encode_string, encoded_string_len, decode_to_string, unit_bytes,
}
use smb_mem_lib.Wire.Words.{
  word8, word16, word32, word64, length-unit_bytes, IsText, decode_to_string-unit_bytes,
}
use smb_mem_lib.Wire.Writes.{bytes_at-raw}
use smb_mem_lib.Smb2.Packet.{
  PacketHeader, encode_header, FileId, file_id_writes, file_id_at, IsFileId,
}
use smb_mem_lib.Smb2.Packet.Headers.{len-encode_header, fault-write_all-encode_header}

pub record QueryDirectoryRequest : Type 0 where
  pub file_info_class : ℕ
  pub flags : ℕ
  pub file_index : ℕ
  pub file_id : FileId
  pub output_buffer_length : ℕ
  pub file_name : List ℕ

-- Size
abbrev pub size : QueryDirectoryRequest → ℕ
size c = if length c.file_name == 0 then 64 + 32 + 1 else 64 + 32 + encoded_string_len c.file_name

-- The writes of Encode before the variable part, and those after it
abbrev fields : QueryDirectoryRequest → List Write
fields c =
    u16 64 33
    ∷ u8 (64 + 2) c.file_info_class
    ∷ u8 (64 + 3) c.flags
    ∷ u32 (64 + 4) c.file_index
    ∷ (file_id_writes (64 + 8) c.file_id
        ++ (u32 (64 + 28) c.output_buffer_length ∷ u16 (64 + 24) (64 + 32) ∷ []))

abbrev last_fields : QueryDirectoryRequest → List Write
last_fields c = u16 (64 + 26) (2 * length c.file_name) ∷ []

-- Encode
pub encode : PacketHeader → QueryDirectoryRequest → Slice → Slice
encode h c pkt =
    write_all (fields c ++ (encode_string (64 + 32) c.file_name ∷ last_fields c))
      (encode_header (record h { command = 14 }) pkt)

-- The bytes of FileName: offset and end are uint16, and so is the difference.
file_name : Slice → Decoded Bytes
unfolding slice
file_name r =
    let off = (uint16 24 r + 2 ^ 16 - 64) % 2 ^ 16 in slice off ((off + uint16 26 r) % 2 ^ 16) r

-- IsInvalid
is_invalid : Slice → Bool
is_invalid r =
    if ltb r.len 32
    then true
    else if not (uint16 0 r == 33)
    then true
    else ltb (r.len + 64) ((uint16 24 r + uint16 26 r) % 2 ^ 16)

-- The fields, read behind IsInvalid
pub decode : Slice → Decoded QueryDirectoryRequest
decode r =
    if is_invalid r
    then rejected
    else (file_name r >>= λ file_name_bytes. decoded (record {
      file_info_class = r.byte 2;
      flags = r.byte 3;
      file_index = uint32 4 r;
      file_id = file_id_at 8 r;
      output_buffer_length = uint32 28 r;
      file_name = decode_to_string file_name_bytes;
    }))

-- What fits into the fields
abbrev pub IsWire : QueryDirectoryRequest → Type 0
IsWire c =
    (c.file_info_class < 2 ^ 8)
    × (c.flags < 2 ^ 8)
    × (c.file_index < 2 ^ 32)
    × IsFileId c.file_id
    × (c.output_buffer_length < 2 ^ 32)
    × IsText c.file_name
    × (length c.file_name < 2 ^ 14)

module _ (h : PacketHeader) (c : QueryDirectoryRequest) (w : IsWire c) where
  abbrev pub sent : Slice
  sent = encode h c (zeroed (size c))

  sent_len : sent.len ≡ size c
  unfolding encode
  sent_len = len-encode_header (record h { command = 14 }) (zeroed (size c))

  sent_fault : sent.fault ≡ false
  unfolding encode
  sent_fault =
      fault-write_all-encode_header (record h { command = 14 }) (zeroed (size c)) (size c)
        (fields c ++ (encode_string (64 + 32) c.file_name ∷ last_fields c)) refl refl (ground arith)
        (ground (arith, length-unit_bytes c.file_name))

  sent_text : bytes_at 32 (length (unit_bytes c.file_name)) (from 64 sent) ≡ unit_bytes c.file_name
  unfolding encode
  sent_text =
      bytes_at-raw 32 (unit_bytes c.file_name) (fields c) (last_fields c)
        (encode_header (record h { command = 14 }) (zeroed (size c))) (omega arith)

  sent_valid : is_invalid (from 64 sent) ≡ false
  unfolding encode is_invalid
  sent_valid =
      ground (arith, w, sent_len, length-unit_bytes c.file_name, word16 (2 * length c.file_name))

  sent-file_name : file_name (from 64 sent) ≡ decoded (unit_bytes c.file_name)
  unfolding encode file_name slice
  sent-file_name = ground (
    arith,
    w,
    sent_len,
    sent_text,
    length-unit_bytes c.file_name,
    word16 (2 * length c.file_name),
  )

  pub decode-encode : (sent.fault ≡ false) × (decode (from 64 sent) ≡ decoded c)
  unfolding encode decode
  decode-encode = (
    sent_fault,
    rw (sent_valid, sent-file_name)
        (ground (
          arith,
          word8 c.file_info_class w.0,
          word8 c.flags w.1,
          word32 c.file_index w.2,
          word64 c.file_id.persistent w.3.0,
          word64 c.file_id.volatile w.3.1,
          word32 c.output_buffer_length w.4,
          w,
          decode_to_string-unit_bytes c.file_name,
        )),
  )
