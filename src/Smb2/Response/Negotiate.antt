-- ===== src/Smb2/Response/Negotiate.antt =====
-- internal/smb2/response.go: NegotiateResponse and NegotiateResponseDecoder.
use smb_mem_lib.Prelude.{
  ℕ, ◌+◌, ◌-◌, ◌%◌, ◌^◌, ◌<◌, ◌≡◌, refl, Bool, true, false, List, ◌++◌, [], ◌∷◌, Bytes, length, ltb,
  not, ◌==◌, if◌then◌else◌, arith,
}
use smb_mem_lib.Wire.{
  Slice, Write, u16, u32, copied, write_all, Decoded, rejected, decoded, ◌>>=◌, zeroed, from,
  uint16, uint32, slice, rest_of, bytes_at,
}
use smb_mem_lib.Wire.Words.{word16, word32, word64}
use smb_mem_lib.Wire.Writes.{bytes_at-copied}
use smb_mem_lib.Smb2.Packet.{
  PacketHeader, encode_header, Guid, guid_writes, guid_at, IsGuid, Stamp, stamp_writes, stamp_at,
  IsStamp,
}
use smb_mem_lib.Smb2.Packet.Contexts.{contexts_end, negotiate_contexts}
use smb_mem_lib.Smb2.Packet.Headers.{
  len-encode_header, byte-encode_header, fault-write_all-encode_header,
}

pub record NegotiateResponse : Type 0 where
  pub security_mode : ℕ
  pub dialect_revision : ℕ
  pub server_guid : Guid
  pub capabilities : ℕ
  pub max_transact_size : ℕ
  pub max_read_size : ℕ
  pub max_write_size : ℕ
  pub system_time : Stamp
  pub server_start_time : Stamp
  pub security_buffer : Bytes
  pub contexts : List Bytes

-- SecurityBuffer with its offset and length
abbrev buffer_writes : Bytes → List Write
buffer_writes bs = copied (64 + 64) bs ∷ u16 (64 + 56) (64 + 64) ∷ u16 (64 + 58) (length bs) ∷ []

-- The loop over Contexts, and NegotiateContextCount
abbrev context_writes : ℕ → List Bytes → List Write
context_writes off contexts =
    negotiate_contexts 60 off contexts ++ (u16 (64 + 6) (length contexts) ∷ [])

-- Size
abbrev pub size : NegotiateResponse → ℕ
size c =
    if contexts_end (64 + length c.security_buffer) c.contexts == 64
    then 64 + 64 + 1
    else 64 + contexts_end (64 + length c.security_buffer) c.contexts

-- The writes of Encode
abbrev fields : NegotiateResponse → List Write
fields c =
    u16 64 65
    ∷ u16 (64 + 2) c.security_mode
    ∷ u16 (64 + 4) c.dialect_revision
    ∷ (guid_writes (64 + 8) c.server_guid
        ++ (u32 (64 + 24) c.capabilities
            ∷ u32 (64 + 28) c.max_transact_size
            ∷ u32 (64 + 32) c.max_read_size
            ∷ u32 (64 + 36) c.max_write_size
            ∷ (stamp_writes (64 + 40) c.system_time
                ++ (stamp_writes (64 + 48) c.server_start_time))))

-- Encode
pub encode : PacketHeader → NegotiateResponse → Slice → Slice
encode h c pkt =
    write_all
      (fields c
        ++ (buffer_writes c.security_buffer
            ++ context_writes (64 + length c.security_buffer) c.contexts))
      (encode_header (record h { command = 0 }) pkt)

-- SecurityBuffer: the end is uint16.
security_buffer : Slice → Decoded Bytes
unfolding slice
security_buffer r =
    if ltb (uint16 56 r) (64 + 64)
    then decoded []
    else slice (uint16 56 r - 64) ((uint16 56 r - 64 + uint16 58 r) % 2 ^ 16) r

-- NegotiateContextList
unfoldable pub negotiate_context_list : Slice → Decoded Bytes
unfolding rest_of
negotiate_context_list r = if ltb (uint32 60 r) 64 then decoded [] else rest_of (uint32 60 r - 64) r

-- IsInvalid
is_invalid : Slice → Bool
is_invalid r =
    if ltb r.len 64
    then true
    else if not (uint16 0 r == 65)
    then true
    else if ltb (r.len + 64) ((uint16 56 r + uint16 58 r) % 2 ^ 16)
    then true
    else if uint16 4 r == 0x311
    then (if not (uint32 60 r % 8 == 0) then true else ltb (r.len + 64) (uint32 60 r))
    else false

-- What the decoder reads
pub record NegotiateResponseView : Type 0 where
  pub security_mode : ℕ
  pub dialect_revision : ℕ
  pub server_guid : Guid
  pub capabilities : ℕ
  pub max_transact_size : ℕ
  pub max_read_size : ℕ
  pub max_write_size : ℕ
  pub system_time : Stamp
  pub server_start_time : Stamp
  pub security_buffer : Bytes
  pub negotiate_context_offset : ℕ
  pub negotiate_context_count : ℕ

-- The fields, read behind IsInvalid
pub decode : Slice → Decoded NegotiateResponseView
decode r =
    if is_invalid r
    then rejected
    else (security_buffer r >>= λ buffer. decoded (record {
      security_mode = uint16 2 r;
      dialect_revision = uint16 4 r;
      server_guid = guid_at 8 r;
      capabilities = uint32 24 r;
      max_transact_size = uint32 28 r;
      max_read_size = uint32 32 r;
      max_write_size = uint32 36 r;
      system_time = stamp_at 40 r;
      server_start_time = stamp_at 48 r;
      security_buffer = buffer;
      negotiate_context_offset = uint32 60 r;
      negotiate_context_count = uint16 6 r;
    }))

-- What fits into the fields
abbrev pub IsWire : NegotiateResponse → Type 0
IsWire c =
    (c.security_mode < 2 ^ 16)
    × (c.dialect_revision < 2 ^ 16)
    × IsGuid c.server_guid
    × (c.capabilities < 2 ^ 32)
    × (c.max_transact_size < 2 ^ 32)
    × (c.max_read_size < 2 ^ 32)
    × (c.max_write_size < 2 ^ 32)
    × IsStamp c.system_time
    × IsStamp c.server_start_time
    × (length c.security_buffer < 2 ^ 15)

module _ (h : PacketHeader) (c : NegotiateResponse) (w : IsWire (record c { contexts = [] })) where
  abbrev full : NegotiateResponse
  full = record c { contexts = [] }

  abbrev pub sent : Slice
  sent = encode h full (zeroed (size full))

  sent_len : sent.len ≡ size full
  unfolding encode
  sent_len = len-encode_header (record h { command = 0 }) (zeroed (size full))

  sent_fault : sent.fault ≡ false
  unfolding encode
  sent_fault =
      fault-write_all-encode_header (record h { command = 0 }) (zeroed (size full)) (size full)
        (fields full
          ++ (buffer_writes full.security_buffer
              ++ context_writes (64 + length full.security_buffer) full.contexts))
        refl refl (ground arith) (ground arith)

  sent_bytes : bytes_at 64 (length full.security_buffer) (from 64 sent) ≡ full.security_buffer
  unfolding encode
  sent_bytes =
      bytes_at-copied 64 full.security_buffer (fields full)
        (u16 (64 + 56) 128 ∷ u16 (64 + 58) (length full.security_buffer) ∷ u16 (64 + 6) 0 ∷ [])
        (encode_header (record h { command = 0 }) (zeroed (size full))) (omega arith)

  sent_offset : uint32 60 (from 64 sent) ≡ 0
  unfolding encode
  sent_offset = ground (
    arith,
    byte-encode_header (record h { command = 0 }) (zeroed (size full)) 124 (omega arith),
    byte-encode_header (record h { command = 0 }) (zeroed (size full)) 125 (omega arith),
    byte-encode_header (record h { command = 0 }) (zeroed (size full)) 126 (omega arith),
    byte-encode_header (record h { command = 0 }) (zeroed (size full)) 127 (omega arith),
  )

  sent_count : uint16 6 (from 64 sent) ≡ 0
  unfolding encode
  sent_count = ground arith

  sent_valid : is_invalid (from 64 sent) ≡ false
  unfolding encode is_invalid
  sent_valid = ground (arith, w, sent_len, word16 (length full.security_buffer), sent_offset)

  sent_buffer : security_buffer (from 64 sent) ≡ decoded full.security_buffer
  unfolding encode security_buffer slice
  sent_buffer = ground (arith, w, sent_len, sent_bytes, word16 (length full.security_buffer))

  pub decode-encode :
      (sent.fault ≡ false)
      × (decode (from 64 sent)
          ≡ decoded (record {
            security_mode = full.security_mode;
            dialect_revision = full.dialect_revision;
            server_guid = full.server_guid;
            capabilities = full.capabilities;
            max_transact_size = full.max_transact_size;
            max_read_size = full.max_read_size;
            max_write_size = full.max_write_size;
            system_time = full.system_time;
            server_start_time = full.server_start_time;
            security_buffer = full.security_buffer;
            negotiate_context_offset = 0;
            negotiate_context_count = 0;
          }))
  unfolding encode decode
  decode-encode = (
    sent_fault,
    rw (sent_valid, sent_buffer, sent_offset, sent_count)
        (ground (
          arith,
          word16 full.security_mode w.0,
          word16 full.dialect_revision w.1,
          word64 full.server_guid.low w.2.0,
          word64 full.server_guid.high w.2.1,
          word32 full.capabilities w.3,
          word32 full.max_transact_size w.4,
          word32 full.max_read_size w.5,
          word32 full.max_write_size w.6,
          word32 full.system_time.low w.7.0,
          word32 full.system_time.high w.7.1,
          word32 full.server_start_time.low w.8.0,
          word32 full.server_start_time.high w.8.1,
        )),
  )
