-- ===== src/Smb2/Response/SessionSetup.antt =====
-- internal/smb2/response.go: SessionSetupResponse and SessionSetupResponseDecoder.
use smb_mem_lib.Prelude.{
  ℕ, ◌+◌, ◌-◌, ◌%◌, ◌^◌, ◌<◌, ◌≡◌, refl, Bool, true, false, List, ◌++◌, [], ◌∷◌, Bytes, length, ltb,
  not, ◌==◌, if◌then◌else◌, arith,
}
use smb_mem_lib.Wire.{
  Slice, Write, u16, copied, write_all, Decoded, rejected, decoded, ◌>>=◌, zeroed, from, uint16,
  slice, bytes_at,
}
use smb_mem_lib.Wire.Words.{word16}
use smb_mem_lib.Wire.Writes.{bytes_at-copied}
use smb_mem_lib.Smb2.Packet.{PacketHeader, encode_header}
use smb_mem_lib.Smb2.Packet.Headers.{len-encode_header, fault-write_all-encode_header}

pub record SessionSetupResponse : Type 0 where
  pub session_flags : ℕ
  pub security_buffer : Bytes

-- SecurityBuffer, unless it is empty
abbrev buffer_writes : Bytes → List Write
buffer_writes [] = []
buffer_writes (b ∷ bs) =
    u16 (64 + 4) (8 + 64) ∷ copied (64 + 8) (b ∷ bs) ∷ u16 (64 + 6) (length (b ∷ bs)) ∷ []

-- Size
abbrev pub size : SessionSetupResponse → ℕ
size c = if length c.security_buffer == 0 then 64 + 8 + 1 else 64 + 8 + length c.security_buffer

-- The writes of Encode
abbrev fields : SessionSetupResponse → List Write
fields c = u16 64 9 ∷ u16 (64 + 2) c.session_flags ∷ []

-- Encode
pub encode : PacketHeader → SessionSetupResponse → Slice → Slice
encode h c pkt =
    write_all (fields c ++ buffer_writes c.security_buffer)
      (encode_header (record h { command = 1 }) pkt)

-- SecurityBuffer: the end is uint16.
security_buffer : Slice → Decoded Bytes
unfolding slice
security_buffer r =
    if ltb (uint16 4 r) (8 + 64)
    then decoded []
    else slice (uint16 4 r - 64) ((uint16 4 r - 64 + uint16 6 r) % 2 ^ 16) r

-- IsInvalid
is_invalid : Slice → Bool
is_invalid r =
    if ltb r.len 8
    then true
    else if not (uint16 0 r == 9)
    then true
    else ltb (r.len + 64) ((uint16 4 r + uint16 6 r) % 2 ^ 16)

-- The fields, read behind IsInvalid
pub decode : Slice → Decoded SessionSetupResponse
decode r =
    if is_invalid r
    then rejected
    else (security_buffer r >>= λ buffer.
        decoded (record { session_flags = uint16 2 r; security_buffer = buffer }))

-- What fits into the fields
abbrev pub IsWire : SessionSetupResponse → Type 0
IsWire c = (c.session_flags < 2 ^ 16) × (length c.security_buffer < 2 ^ 15)

module _ (h : PacketHeader) (c : SessionSetupResponse) (x : ℕ) (xs : Bytes)
    (w : IsWire (record c { security_buffer = x ∷ xs })) where
  abbrev full : SessionSetupResponse
  full = record c { security_buffer = x ∷ xs }

  abbrev pub sent : Slice
  sent = encode h full (zeroed (size full))

  sent_len : sent.len ≡ size full
  unfolding encode
  sent_len = len-encode_header (record h { command = 1 }) (zeroed (size full))

  sent_fault : sent.fault ≡ false
  unfolding encode
  sent_fault =
      fault-write_all-encode_header (record h { command = 1 }) (zeroed (size full)) (size full)
        (fields full ++ buffer_writes full.security_buffer) refl refl (ground arith) (ground arith)

  sent_bytes : bytes_at 8 (length (x ∷ xs)) (from 64 sent) ≡ x ∷ xs
  unfolding encode
  sent_bytes =
      bytes_at-copied 8 (x ∷ xs) (fields full ++ (u16 (64 + 4) 72 ∷ []))
        (u16 (64 + 6) (length (x ∷ xs)) ∷ [])
        (encode_header (record h { command = 1 }) (zeroed (size full))) (omega arith)

  sent_valid : is_invalid (from 64 sent) ≡ false
  unfolding encode is_invalid
  sent_valid = ground (arith, w, sent_len, word16 (length (x ∷ xs)))

  sent_buffer : security_buffer (from 64 sent) ≡ decoded (x ∷ xs)
  unfolding encode security_buffer slice
  sent_buffer = ground (arith, w, sent_len, sent_bytes, word16 (length (x ∷ xs)))

  pub decode-encode : (sent.fault ≡ false) × (decode (from 64 sent) ≡ decoded full)
  unfolding encode decode
  decode-encode =
      (sent_fault, rw (sent_valid, sent_buffer) (ground (arith, word16 full.session_flags w.0)))
