-- ===== src/Smb2/Response/Error.antt =====
-- internal/smb2/response.go: ErrorResponse and ErrorResponseDecoder.
use smb_mem_lib.Prelude.{
  ℕ, ◌+◌, ◌%◌, ◌^◌, ◌<◌, ◌≡◌, refl, Bool, true, false, List, ◌++◌, [], ◌∷◌, Bytes, length, ltb, not,
  ◌==◌, if◌then◌else◌, arith,
}
use smb_mem_lib.Wire.{
  Slice, Write, u8, u16, raw, write_all, Decoded, rejected, decoded, ◌>>=◌, zeroed, from, uint16,
  uint32, slice,
}
use smb_mem_lib.Smb2.Packet.{PacketHeader, encode_header}
use smb_mem_lib.Smb2.Packet.Headers.{
  len-encode_header, byte-encode_header, fault-write_all-encode_header,
}

-- A nil Encoder, an ErrorContextListResponse of `n` contexts, and any other Encoder
pub data ErrorData : Type 0 where
  absent : ErrorData
  context_list : ℕ → Bytes → ErrorData
  other : Bytes → ErrorData

pub record ErrorResponse : Type 0 where
  pub error_data : ErrorData

-- Size
abbrev error_size : ErrorData → ℕ
error_size absent = 64 + 8 + 1
error_size (context_list n bs) = 64 + 8 + length bs
error_size (other bs) = 64 + 8 + length bs

-- The writes of ErrorData
abbrev error_writes : ErrorData → List Write
error_writes absent = []
error_writes (context_list n bs) = u16 (64 + 2) (length bs) ∷ raw (64 + 8) bs ∷ u8 (64 + 2) n ∷ []
error_writes (other bs) = u16 (64 + 2) (length bs) ∷ raw (64 + 8) bs ∷ []

-- Size
abbrev size : ErrorResponse → ℕ
size c = error_size c.error_data

-- The writes of Encode
abbrev fields : ErrorResponse → List Write
fields c = u16 64 9 ∷ []

-- Encode
pub encode : PacketHeader → ErrorResponse → Slice → Slice
encode h c pkt = write_all (fields c ++ error_writes c.error_data) (encode_header h pkt)

-- ErrorData: the end is uint32.
unfoldable pub error_data : Slice → Decoded Bytes
unfolding slice
error_data r = slice 8 ((8 + uint32 4 r) % 2 ^ 32) r

-- IsInvalid
unfoldable pub is_invalid : Slice → Bool
is_invalid r =
    if ltb r.len 8
    then true
    else if not (uint16 0 r == 9)
    then true
    else ltb (r.len % 2 ^ 32) ((8 + uint32 4 r) % 2 ^ 32)

-- What the decoder reads
pub record ErrorResponseView : Type 0 where
  pub error_context_count : ℕ
  pub byte_count : ℕ
  pub error_data : Bytes

-- The fields, read behind IsInvalid
pub decode : Slice → Decoded ErrorResponseView
decode r =
    if is_invalid r
    then rejected
    else (error_data r >>= λ bytes.
        decoded
          (record { error_context_count = r.byte 2; byte_count = uint32 4 r; error_data = bytes }))

-- What fits into the fields
abbrev pub IsWire : ErrorResponse → Type 0
IsWire c = (error_size c.error_data < 2 ^ 32)

module _ (h : PacketHeader) (c : ErrorResponse) (bs : Bytes)
    (w : IsWire (record c { error_data = other bs })) where
  abbrev full : ErrorResponse
  full = record c { error_data = other bs }

  abbrev pub sent : Slice
  sent = encode h full (zeroed (size full))

  sent_len : sent.len ≡ size full
  unfolding encode
  sent_len = len-encode_header h (zeroed (size full))

  sent_fault : sent.fault ≡ false
  unfolding encode
  sent_fault =
      fault-write_all-encode_header h (zeroed (size full)) (size full)
        (fields full ++ error_writes full.error_data) refl refl (ground arith) (ground arith)

  sent_count : uint32 4 (from 64 sent) ≡ 0
  unfolding encode
  sent_count = ground (
    arith,
    byte-encode_header h (zeroed (size full)) 68 (omega arith),
    byte-encode_header h (zeroed (size full)) 69 (omega arith),
    byte-encode_header h (zeroed (size full)) 70 (omega arith),
    byte-encode_header h (zeroed (size full)) 71 (omega arith),
  )

  sent_valid : is_invalid (from 64 sent) ≡ false
  unfolding encode is_invalid
  sent_valid = ground (arith, w, sent_len, sent_count)

  sent_data : error_data (from 64 sent) ≡ decoded []
  unfolding error_data slice
  sent_data = rw sent_count (ground (arith, w, sent_len))

  -- What follows the eight bytes of an error response is not found again: ByteCount stays 0.
  error_data_lost :
      (sent.fault ≡ false)
      × (decode (from 64 sent)
          ≡ decoded
              (record { error_context_count = length bs % 256; byte_count = 0; error_data = [] }))
  unfolding encode decode
  error_data_lost = (sent_fault, rw (sent_valid, sent_data, sent_count) (refl))
