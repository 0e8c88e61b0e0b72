-- ===== src/Smb2/Request/Negotiate.antt =====
-- internal/smb2/request.go: NegotiateRequest and NegotiateRequestDecoder.
use smb_mem_lib.Prelude.{
  All, ℕ, ◌+◌, ◌-◌, ◌*◌, ◌%◌, ◌^◌, ◌<◌, ◌≡◌, refl, Bool, true, false, List, ◌++◌, [], ◌∷◌, Bytes,
  length, ltb, not, ◌==◌, if◌then◌else◌, arith,
}
use smb_mem_lib.Wire.{
  Slice, Write, u16, u32, raw, write_all, Decoded, rejected, decoded, ◌>>=◌, zeroed, from, uint16,
  uint32, slice, rest_of, bytes_at, unit_bytes, bytes_units,
}
use smb_mem_lib.Wire.Words.{word16, word32, word64, length-unit_bytes, bytes_units-unit_bytes}
use smb_mem_lib.Wire.Writes.{bytes_at-raw}
use smb_mem_lib.Smb2.Packet.{PacketHeader, encode_header, Guid, guid_writes, guid_at, IsGuid}
use smb_mem_lib.Smb2.Packet.Contexts.{contexts_end, negotiate_contexts}
use smb_mem_lib.Smb2.Packet.Headers.{
  len-encode_header, byte-encode_header, fault-write_all-encode_header,
}

pub record NegotiateRequest : Type 0 where
  pub security_mode : ℕ
  pub capabilities : ℕ
  pub client_guid : Guid
  pub dialects : List ℕ
  pub contexts : List Bytes

-- The loop over Dialects, which writes low bytes first, and DialectCount
abbrev dialect_writes : List ℕ → List Write
dialect_writes dialects = raw (64 + 36) (unit_bytes dialects) ∷ u16 (64 + 2) (length dialects) ∷ []

abbrev context_writes : ℕ → List Bytes → List Write
context_writes off contexts =
    negotiate_contexts 28 off contexts ++ (u16 (64 + 32) (length contexts) ∷ [])

-- Size
abbrev pub size : NegotiateRequest → ℕ
size c = 64 + contexts_end (36 + 2 * length c.dialects) c.contexts

-- The writes of Encode
abbrev fields : NegotiateRequest → List Write
fields c =
    u16 64 36
    ∷ u16 (64 + 4) c.security_mode
    ∷ u32 (64 + 8) c.capabilities
    ∷ (guid_writes (64 + 12) c.client_guid)

-- Encode
pub encode : PacketHeader → NegotiateRequest → Slice → Slice
encode h c pkt =
    write_all
      (fields c
        ++ (dialect_writes c.dialects ++ context_writes (36 + 2 * length c.dialects) c.contexts))
      (encode_header (record h { command = 0 }) pkt)

-- The bytes of Dialects: the end is uint16.
unfoldable pub dialects : Slice → Decoded Bytes
unfolding slice
dialects r = slice 36 ((36 + 2 * uint16 2 r) % 2 ^ 16) r

-- NegotiateContextList
unfoldable pub negotiate_context_list : Slice → Decoded Bytes
unfolding rest_of
negotiate_context_list r = if ltb (uint32 28 r) 64 then decoded [] else rest_of (uint32 28 r - 64) r

-- IsInvalid
unfoldable pub is_invalid : Slice → Bool
is_invalid r =
    if ltb r.len 36
    then true
    else if not (uint16 0 r == 36)
    then true
    else if not (uint32 28 r % 8 == 0)
    then true
    else ltb (r.len + 36) (uint32 28 r)

-- What the decoder reads
pub record NegotiateRequestView : Type 0 where
  pub security_mode : ℕ
  pub capabilities : ℕ
  pub client_guid : Guid
  pub dialects : List ℕ
  pub negotiate_context_offset : ℕ
  pub negotiate_context_count : ℕ

-- The fields, read behind IsInvalid
unfoldable pub decode : Slice → Decoded NegotiateRequestView
decode r =
    if is_invalid r
    then rejected
    else (dialects r >>= λ dialect_bytes. decoded (record {
      security_mode = uint16 4 r;
      capabilities = uint32 8 r;
      client_guid = guid_at 12 r;
      dialects = bytes_units dialect_bytes;
      negotiate_context_offset = uint32 28 r;
      negotiate_context_count = uint16 32 r;
    }))

-- What fits into the fields
abbrev pub IsWire : NegotiateRequest → Type 0
IsWire c =
    (c.security_mode < 2 ^ 16)
    × (c.capabilities < 2 ^ 32)
    × IsGuid c.client_guid
    × All (λ d. d < 2 ^ 16) c.dialects
    × (length c.dialects < 2 ^ 14)

module _ (h : PacketHeader) (c : NegotiateRequest) (w : IsWire (record c { contexts = [] })) where
  abbrev full : NegotiateRequest
  full = record c { contexts = [] }

  abbrev pub sent : Slice
  sent = encode h full (zeroed (size full))

  sent_len : sent.len ≡ size full
  unfolding encode
  sent_len = len-encode_header (record h { command = 0 }) (zeroed (size full))

  sent_fault : sent.fault ≡ false
  unfolding encode
  sent_fault =
      fault-write_all-encode_header (record h { command = 0 }) (zeroed (size full)) (size full)
        (fields full
          ++ (dialect_writes full.dialects
              ++ context_writes (36 + 2 * length full.dialects) full.contexts))
        refl refl (ground arith) (ground (arith, length-unit_bytes full.dialects))

  sent_text :
      bytes_at 36 (length (unit_bytes full.dialects)) (from 64 sent) ≡ unit_bytes full.dialects
  unfolding encode
  sent_text =
      bytes_at-raw 36 (unit_bytes full.dialects) (fields full)
        (u16 (64 + 2) (length full.dialects) ∷ u16 (64 + 32) 0 ∷ [])
        (encode_header (record h { command = 0 }) (zeroed (size full))) (omega arith)

  sent_offset : uint32 28 (from 64 sent) ≡ 0
  unfolding encode
  sent_offset = ground (
    arith,
    w,
    length-unit_bytes full.dialects,
    byte-encode_header (record h { command = 0 }) (zeroed (size full)) 92 (omega arith),
    byte-encode_header (record h { command = 0 }) (zeroed (size full)) 93 (omega arith),
    byte-encode_header (record h { command = 0 }) (zeroed (size full)) 94 (omega arith),
    byte-encode_header (record h { command = 0 }) (zeroed (size full)) 95 (omega arith),
  )

  sent_count : uint16 32 (from 64 sent) ≡ 0
  unfolding encode
  sent_count = ground arith

  sent_valid : is_invalid (from 64 sent) ≡ false
  unfolding encode is_invalid
  sent_valid = ground (arith, w, sent_len, length-unit_bytes full.dialects, sent_offset)

  sent-dialects : dialects (from 64 sent) ≡ decoded (unit_bytes full.dialects)
  unfolding encode dialects slice
  sent-dialects = ground (
    arith,
    w,
    sent_len,
    sent_text,
    length-unit_bytes full.dialects,
    word16 (length full.dialects),
  )

  pub decode-encode :
      (sent.fault ≡ false)
      × (decode (from 64 sent)
          ≡ decoded (record {
            security_mode = full.security_mode;
            capabilities = full.capabilities;
            client_guid = full.client_guid;
            dialects = full.dialects;
            negotiate_context_offset = 0;
            negotiate_context_count = 0;
          }))
  unfolding encode decode
  decode-encode = (
    sent_fault,
    rw (sent_valid, sent-dialects, sent_offset, sent_count)
        (ground (
          arith,
          word16 full.security_mode w.0,
          word32 full.capabilities w.1,
          word64 full.client_guid.low w.2.0,
          word64 full.client_guid.high w.2.1,
          w,
          bytes_units-unit_bytes full.dialects,
          sent_offset,
          sent_count,
        )),
  )
