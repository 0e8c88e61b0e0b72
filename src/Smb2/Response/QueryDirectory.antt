-- ===== src/Smb2/Response/QueryDirectory.antt =====
-- internal/smb2/response.go: QueryDirectoryResponse and QueryDirectoryResponseDecoder.
use smb_mem_lib.Prelude.{
  ℕ, ◌+◌, ◌-◌, ◌%◌, ◌^◌, ◌<◌, ◌≡◌, refl, Bool, true, false, List, ◌++◌, [], ◌∷◌, Bytes, length, ltb,
  not, Option, none, some, ◌==◌, if◌then◌else◌, arith,
}
use smb_mem_lib.Wire.{
  Slice, Write, u16, u32, raw, write_all, Decoded, rejected, decoded, ◌>>=◌, zeroed, from, uint16,
  uint32, slice, bytes_at,
}
use smb_mem_lib.Wire.Words.{word32}
use smb_mem_lib.Wire.Writes.{bytes_at-raw}
use smb_mem_lib.Smb2.Packet.{PacketHeader, encode_header, given_size}
use smb_mem_lib.Smb2.Packet.Headers.{len-encode_header, fault-write_all-encode_header}

pub record QueryDirectoryResponse : Type 0 where
  pub output : Option Bytes

-- The writes of output
abbrev output_writes : Option Bytes → List Write
output_writes none = []
output_writes (some bs) = u16 (64 + 2) (64 + 8) ∷ raw (64 + 8) bs ∷ u32 (64 + 4) (length bs) ∷ []

-- Size
abbrev pub size : QueryDirectoryResponse → ℕ
size c = given_size (64 + 8) c.output

-- The writes of Encode
abbrev fields : QueryDirectoryResponse → List Write
fields c = u16 64 9 ∷ []

-- Encode
pub encode : PacketHeader → QueryDirectoryResponse → Slice → Slice
encode h c pkt =
    write_all (fields c ++ output_writes c.output) (encode_header (record h { command = 14 }) pkt)

-- OutputBuffer: the end is uint32.
output_buffer : Slice → Decoded Bytes
unfolding slice
output_buffer r =
    if ltb (uint16 2 r) (64 + 8)
    then decoded []
    else slice (uint16 2 r - 64) ((uint16 2 r - 64 + uint32 4 r) % 2 ^ 32) r

-- IsInvalid
is_invalid : Slice → Bool
is_invalid r =
    if ltb r.len 8
    then true
    else if not (uint16 0 r == 9)
    then true
    else ltb (r.len + 64) ((uint16 2 r + uint32 4 r) % 2 ^ 32)

-- The fields, read behind IsInvalid
pub decode : Slice → Decoded QueryDirectoryResponse
decode r =
    if is_invalid r
    then rejected
    else (output_buffer r >>= λ output_bytes. decoded (record { output = some output_bytes }))

-- What fits into the fields
abbrev pub IsWire : QueryDirectoryResponse → Type 0
IsWire c = (given_size 0 c.output < 2 ^ 31)

module _ (h : PacketHeader) (c : QueryDirectoryResponse) (output : Bytes)
    (w : IsWire (record c { output = some output })) where
  abbrev full : QueryDirectoryResponse
  full = record c { output = some output }

  abbrev pub sent : Slice
  sent = encode h full (zeroed (size full))

  sent_len : sent.len ≡ size full
  unfolding encode
  sent_len = len-encode_header (record h { command = 14 }) (zeroed (size full))

  sent_fault : sent.fault ≡ false
  unfolding encode
  sent_fault =
      fault-write_all-encode_header (record h { command = 14 }) (zeroed (size full)) (size full)
        (fields full ++ output_writes full.output) refl refl (ground arith) (ground arith)

  sent_bytes : bytes_at 8 (length output) (from 64 sent) ≡ output
  unfolding encode
  sent_bytes =
      bytes_at-raw 8 output (fields full ++ (u16 (64 + 2) (64 + 8) ∷ []))
        (u32 (64 + 4) (length output) ∷ [])
        (encode_header (record h { command = 14 }) (zeroed (size full))) (omega arith)

  sent_valid : is_invalid (from 64 sent) ≡ false
  unfolding encode is_invalid
  sent_valid = ground (arith, w, sent_len, word32 (length output))

  sent_accessor : output_buffer (from 64 sent) ≡ decoded output
  unfolding encode output_buffer slice
  sent_accessor = ground (arith, w, sent_len, sent_bytes, word32 (length output))

  pub decode-encode : (sent.fault ≡ false) × (decode (from 64 sent) ≡ decoded full)
  unfolding encode decode
  decode-encode = (sent_fault, rw (sent_valid, sent_accessor) (refl))
