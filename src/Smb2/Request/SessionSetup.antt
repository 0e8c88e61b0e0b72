-- ===== src/Smb2/Request/SessionSetup.antt =====
-- internal/smb2/request.go: SessionSetupRequest and SessionSetupRequestDecoder.
use smb_mem_lib.Prelude.{
  ℕ, ◌+◌, ◌-◌, ◌%◌, ◌^◌, ◌<◌, ◌≡◌, refl, Bool, true, false, List, ◌++◌, [], ◌∷◌, Bytes, length, ltb,
  not, ◌==◌, if◌then◌else◌, arith,
}
use smb_mem_lib.Wire.{
  Slice, Write, u8, u16, u32, u64, copied, write_all, Decoded, rejected, decoded, ◌>>=◌, zeroed,
  from, uint16, uint32, uint64, slice, bytes_at,
}
use smb_mem_lib.Wire.Words.{word8, word16, word32, word64}
use smb_mem_lib.Wire.Writes.{bytes_at-copied}
use smb_mem_lib.Smb2.Packet.{PacketHeader, encode_header}
use smb_mem_lib.Smb2.Packet.Headers.{len-encode_header, fault-write_all-encode_header}

pub record SessionSetupRequest : Type 0 where
  pub flags : ℕ
  pub security_mode : ℕ
  pub capabilities : ℕ
  pub channel : ℕ
  pub security_buffer : Bytes
  pub previous_session_id : ℕ

-- Size
abbrev pub size : SessionSetupRequest → ℕ
size c = if length c.security_buffer == 0 then 64 + 24 + 1 else 64 + 24 + length c.security_buffer

-- The writes of Encode before the variable part, and those after it
abbrev fields : SessionSetupRequest → List Write
fields c =
    u16 64 25
    ∷ u8 (64 + 2) c.flags
    ∷ u8 (64 + 3) c.security_mode
    ∷ u32 (64 + 4) c.capabilities
    ∷ u32 (64 + 8) c.channel
    ∷ u64 (64 + 16) c.previous_session_id
    ∷ []

abbrev last_fields : SessionSetupRequest → List Write
last_fields c = u16 (64 + 12) (64 + 24) ∷ u16 (64 + 14) (length c.security_buffer) ∷ []

-- Encode
pub encode : PacketHeader → SessionSetupRequest → Slice → Slice
encode h c pkt =
    write_all (fields c ++ (copied (64 + 24) c.security_buffer ∷ last_fields c))
      (encode_header (record h { command = 1 }) pkt)

-- SecurityBuffer: offset and end are uint16.
unfoldable pub security_buffer : Slice → Decoded Bytes
unfolding slice
security_buffer r =
    if ltb (uint16 12 r) (64 + 24)
    then decoded []
    else slice (uint16 12 r - 64) ((uint16 12 r - 64 + uint16 14 r) % 2 ^ 16) r

-- IsInvalid
unfoldable pub is_invalid : Slice → Bool
is_invalid r =
    if ltb r.len 24
    then true
    else if not (uint16 0 r == 25)
    then true
    else ltb (r.len + 64) ((uint16 12 r + uint16 14 r) % 2 ^ 16)

-- The fields, read behind IsInvalid
pub decode : Slice → Decoded SessionSetupRequest
decode r =
    if is_invalid r
    then rejected
    else (security_buffer r >>= λ buffer. decoded (record {
      flags = r.byte 2;
      security_mode = r.byte 3;
      capabilities = uint32 4 r;
      channel = uint32 8 r;
      security_buffer = buffer;
      previous_session_id = uint64 16 r;
    }))

-- What fits into the fields
abbrev pub IsWire : SessionSetupRequest → Type 0
IsWire c =
    (c.flags < 2 ^ 8)
    × (c.security_mode < 2 ^ 8)
    × (c.capabilities < 2 ^ 32)
    × (c.channel < 2 ^ 32)
    × (c.previous_session_id < 2 ^ 64)
    × (length c.security_buffer < 2 ^ 15)

module _ (h : PacketHeader) (c : SessionSetupRequest) (w : IsWire c) where
  abbrev pub sent : Slice
  sent = encode h c (zeroed (size c))

  sent_len : sent.len ≡ size c
  unfolding encode
  sent_len = len-encode_header (record h { command = 1 }) (zeroed (size c))

  sent_fault : sent.fault ≡ false
  unfolding encode
  sent_fault =
      fault-write_all-encode_header (record h { command = 1 }) (zeroed (size c)) (size c)
        (fields c ++ (copied (64 + 24) c.security_buffer ∷ last_fields c)) refl refl (ground arith)
        (ground arith)

  sent_buffer : bytes_at 24 (length c.security_buffer) (from 64 sent) ≡ c.security_buffer
  unfolding encode
  sent_buffer =
      bytes_at-copied 24 c.security_buffer (fields c) (last_fields c)
        (encode_header (record h { command = 1 }) (zeroed (size c))) (omega arith)

  sent_valid : is_invalid (from 64 sent) ≡ false
  unfolding encode is_invalid
  sent_valid = ground (arith, w, sent_len, word16 (length c.security_buffer))

  sent-security_buffer : security_buffer (from 64 sent) ≡ decoded c.security_buffer
  unfolding encode security_buffer
  sent-security_buffer = ground (arith, w, sent_len, sent_buffer, word16 (length c.security_buffer))

  pub decode-encode : (sent.fault ≡ false) × (decode (from 64 sent) ≡ decoded c)
  unfolding encode decode
  decode-encode = (
    sent_fault,
    rw (sent_valid, sent-security_buffer)
        (ground (
          arith,
          word8 c.flags w.0,
          word8 c.security_mode w.1,
          word32 c.capabilities w.2,
          word32 c.channel w.3,
          word64 c.previous_session_id w.4,
        )),
  )
