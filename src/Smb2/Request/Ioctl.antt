-- ===== src/Smb2/Request/Ioctl.antt =====
-- internal/smb2/request.go: IoctlRequest and IoctlRequestDecoder.
use smb_mem_lib.Prelude.{
  ℕ, ◌+◌, ◌%◌, ◌^◌, ◌<◌, ◌≡◌, refl, Bool, true, false, List, ◌++◌, [], ◌∷◌, Bytes, length, ltb, not,
  Option, none, some, ◌==◌, if◌then◌else◌, arith,
}
use smb_mem_lib.Wire.{
  Slice, Write, u16, u32, raw, write_all, Decoded, rejected, decoded, ◌>>=◌, zeroed, from, uint16,
  uint32, rest_of, bytes_at,
}
use smb_mem_lib.Wire.Words.{word32, word64}
use smb_mem_lib.Wire.Writes.{bytes_at-raw}
use smb_mem_lib.Smb2.Packet.{
  PacketHeader, encode_header, FileId, file_id_writes, file_id_at, IsFileId, given_size,
}
use smb_mem_lib.Smb2.Packet.Headers.{len-encode_header, fault-write_all-encode_header}

pub record IoctlRequest : Type 0 where
  pub ctl_code : ℕ
  pub file_id : FileId
  pub output_offset : ℕ
  pub output_count : ℕ
  pub max_input_response : ℕ
  pub max_output_response : ℕ
  pub flags : ℕ
  pub input : Option Bytes

-- The writes of input
abbrev input_writes : Option Bytes → List Write
input_writes none = []
input_writes (some bs) = u32 (64 + 24) (64 + 56) ∷ raw (64 + 56) bs ∷ u32 (64 + 28) (length bs) ∷ []

-- Size
abbrev pub size : IoctlRequest → ℕ
size c = given_size (64 + 56) c.input

-- The writes of Encode
abbrev fields : IoctlRequest → List Write
fields c =
    u16 64 57
    ∷ u32 (64 + 4) c.ctl_code
    ∷ (file_id_writes (64 + 8) c.file_id
        ++ (u32 (64 + 32) c.max_input_response
            ∷ u32 (64 + 36) c.output_offset
            ∷ u32 (64 + 40) c.output_count
            ∷ u32 (64 + 44) c.max_output_response
            ∷ u32 (64 + 48) c.flags
            ∷ []))

-- Encode
pub encode : PacketHeader → IoctlRequest → Slice → Slice
encode h c pkt =
    write_all (fields c ++ input_writes c.input) (encode_header (record h { command = 11 }) pkt)

-- Data
ioctl_data : Slice → Decoded Bytes
unfolding rest_of
ioctl_data r = rest_of 56 r

-- IsInvalid
is_invalid : Slice → Bool
is_invalid r =
    if ltb r.len 56
    then true
    else if not (uint16 0 r == 57)
    then true
    else ltb (r.len + 64) ((uint32 24 r + uint32 28 r) % 2 ^ 32)

-- The fields, read behind IsInvalid
pub decode : Slice → Decoded IoctlRequest
decode r =
    if is_invalid r
    then rejected
    else (ioctl_data r >>= λ input_bytes. decoded (record {
      ctl_code = uint32 4 r;
      file_id = file_id_at 8 r;
      output_offset = uint32 36 r;
      output_count = uint32 40 r;
      max_input_response = uint32 32 r;
      max_output_response = uint32 44 r;
      flags = uint32 48 r;
      input = some input_bytes;
    }))

-- What fits into the fields
abbrev pub IsWire : IoctlRequest → Type 0
IsWire c =
    (c.ctl_code < 2 ^ 32)
    × IsFileId c.file_id
    × (c.max_input_response < 2 ^ 32)
    × (c.output_offset < 2 ^ 32)
    × (c.output_count < 2 ^ 32)
    × (c.max_output_response < 2 ^ 32)
    × (c.flags < 2 ^ 32)
    × (given_size 0 c.input < 2 ^ 31)

module _ (h : PacketHeader) (c : IoctlRequest) (input : Bytes)
    (w : IsWire (record c { input = some input })) where
  abbrev full : IoctlRequest
  full = record c { input = some input }

  abbrev pub sent : Slice
  sent = encode h full (zeroed (size full))

  sent_len : sent.len ≡ size full
  unfolding encode
  sent_len = len-encode_header (record h { command = 11 }) (zeroed (size full))

  sent_fault : sent.fault ≡ false
  unfolding encode
  sent_fault =
      fault-write_all-encode_header (record h { command = 11 }) (zeroed (size full)) (size full)
        (fields full ++ input_writes full.input) refl refl (ground arith) (ground arith)

  sent_bytes : bytes_at 56 (length input) (from 64 sent) ≡ input
  unfolding encode
  sent_bytes =
      bytes_at-raw 56 input (fields full ++ (u32 (64 + 24) (64 + 56) ∷ []))
        (u32 (64 + 28) (length input) ∷ [])
        (encode_header (record h { command = 11 }) (zeroed (size full))) (omega arith)

  sent_valid : is_invalid (from 64 sent) ≡ false
  unfolding encode is_invalid
  sent_valid = ground (arith, w, sent_len, word32 (length input))

  sent_accessor : ioctl_data (from 64 sent) ≡ decoded input
  unfolding encode ioctl_data rest_of
  sent_accessor = ground (arith, w, sent_len, sent_bytes, word32 (length input))

  pub decode-encode : (sent.fault ≡ false) × (decode (from 64 sent) ≡ decoded full)
  unfolding encode decode
  decode-encode = (
    sent_fault,
    rw (sent_valid, sent_accessor)
        (ground (
          arith,
          word32 full.ctl_code w.0,
          word64 full.file_id.persistent w.1.0,
          word64 full.file_id.volatile w.1.1,
          word32 full.max_input_response w.2,
          word32 full.output_offset w.3,
          word32 full.output_count w.4,
          word32 full.max_output_response w.5,
          word32 full.flags w.6,
        )),
  )
