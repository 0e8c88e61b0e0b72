-- ===== src/Smb2/Response/Read.antt =====
-- internal/smb2/response.go: ReadResponse and ReadResponseDecoder.
use smb_mem_lib.Prelude.{
  ℕ, ◌+◌, ◌-◌, ◌%◌, ◌^◌, ◌<◌, ◌≡◌, refl, Bool, true, false, List, ◌++◌, [], ◌∷◌, Bytes, length, ltb,
  not, ◌==◌, if◌then◌else◌, arith,
}
use smb_mem_lib.Wire.{
  Slice, Write, u8, u16, u32, copied, write_all, Decoded, rejected, decoded, ◌>>=◌, zeroed, from,
  uint16, uint32, slice, bytes_at,
}
use smb_mem_lib.Wire.Words.{word32}
use smb_mem_lib.Wire.Writes.{bytes_at-copied}
use smb_mem_lib.Smb2.Packet.{PacketHeader, encode_header}
use smb_mem_lib.Smb2.Packet.Headers.{len-encode_header, fault-write_all-encode_header}

pub record ReadResponse : Type 0 where
  pub payload : Bytes
  pub data_remaining : ℕ

-- Size
abbrev pub size : ReadResponse → ℕ
size c = if length c.payload == 0 then 64 + 16 + 1 else 64 + 16 + length c.payload

-- The writes of Encode
abbrev fields : ReadResponse → List Write
fields c = u16 64 17 ∷ []

-- Encode
pub encode : PacketHeader → ReadResponse → Slice → Slice
encode h c pkt =
    write_all
      (fields c
        ++ (u8 (64 + 2) (16 + 64)
            ∷ copied (64 + 16) c.payload
            ∷ u32 (64 + 4) (length c.payload)
            ∷ u32 (64 + 8) c.data_remaining
            ∷ []))
      (encode_header (record h { command = 8 }) pkt)

-- Data: the end is uint32.
read_data : Slice → Decoded Bytes
unfolding slice
read_data r =
    if ltb (r.byte 2) (16 + 64)
    then decoded []
    else slice (r.byte 2 - 64) ((r.byte 2 - 64 + uint32 4 r) % 2 ^ 32) r

-- IsInvalid
is_invalid : Slice → Bool
is_invalid r =
    if ltb r.len 16
    then true
    else if not (uint16 0 r == 17)
    then true
    else ltb (r.len + 64) ((r.byte 2 + uint32 4 r) % 2 ^ 32)

-- The fields, read behind IsInvalid
pub decode : Slice → Decoded ReadResponse
decode r =
    if is_invalid r
    then rejected
    else (read_data r >>= λ payload.
        decoded (record { payload = payload; data_remaining = uint32 8 r }))

-- What fits into the fields
abbrev pub IsWire : ReadResponse → Type 0
IsWire c = (length c.payload < 2 ^ 31) × (c.data_remaining < 2 ^ 32)

module _ (h : PacketHeader) (c : ReadResponse) (w : IsWire c) where
  abbrev pub sent : Slice
  sent = encode h c (zeroed (size c))

  sent_len : sent.len ≡ size c
  unfolding encode
  sent_len = len-encode_header (record h { command = 8 }) (zeroed (size c))

  sent_fault : sent.fault ≡ false
  unfolding encode
  sent_fault =
      fault-write_all-encode_header (record h { command = 8 }) (zeroed (size c)) (size c)
        (fields c
          ++ (u8 (64 + 2) (16 + 64)
              ∷ copied (64 + 16) c.payload
              ∷ u32 (64 + 4) (length c.payload)
              ∷ u32 (64 + 8) c.data_remaining
              ∷ []))
        refl refl (ground arith) (ground arith)

  sent_bytes : bytes_at 16 (length c.payload) (from 64 sent) ≡ c.payload
  unfolding encode
  sent_bytes =
      bytes_at-copied 16 c.payload (u16 64 17 ∷ u8 (64 + 2) 80 ∷ [])
        (u32 (64 + 4) (length c.payload) ∷ u32 (64 + 8) c.data_remaining ∷ [])
        (encode_header (record h { command = 8 }) (zeroed (size c))) (omega arith)

  sent_valid : is_invalid (from 64 sent) ≡ false
  unfolding encode is_invalid
  sent_valid = ground (arith, w, sent_len, word32 (length c.payload))

  sent_data : read_data (from 64 sent) ≡ decoded c.payload
  unfolding encode read_data slice
  sent_data = ground (arith, w, sent_len, sent_bytes, word32 (length c.payload))

  pub decode-encode : (sent.fault ≡ false) × (decode (from 64 sent) ≡ decoded c)
  unfolding encode decode
  decode-encode =
      (sent_fault, rw (sent_valid, sent_data) (ground (arith, word32 c.data_remaining w.1)))
