-- ===== src/Smb2/Request/Create.antt =====
-- internal/smb2/request.go: CreateRequest and CreateRequestDecoder.
use smb_mem_lib.Prelude.{
  ℕ, ◌+◌, ◌-◌, ◌*◌, ◌%◌, ◌^◌, ◌<◌, ◌≡◌, refl, Bool, true, false, ◌&&◌, List, ◌++◌, [], ◌∷◌, Bytes,
  length, ltb, not, ◌==◌, if◌then◌else◌, arith,
}
use smb_mem_lib.Wire.{
  Slice, Write, u8, u16, u32, u64, write_all, Decoded, rejected, decoded, ◌>>=◌, zeroed, from,
  uint16, uint32, uint64, slice, bytes_at, encode_string, encoded_string_len, decode_to_string,
  unit_bytes,
}
use smb_mem_lib.Wire.Words.{
  word8, word16, word32, word64, length-unit_bytes, IsText, decode_to_string-unit_bytes,
}
use smb_mem_lib.Wire.Writes.{bytes_at-raw}
use smb_mem_lib.Smb2.Packet.{PacketHeader, encode_header}
use smb_mem_lib.Smb2.Packet.Contexts.{contexts_end, create_contexts_from}
use smb_mem_lib.Smb2.Packet.Headers.{
  len-encode_header, byte-encode_header, fault-write_all-encode_header,
}

pub record CreateRequest : Type 0 where
  pub security_flags : ℕ
  pub requested_oplock_level : ℕ
  pub impersonation_level : ℕ
  pub smb_create_flags : ℕ
  pub desired_access : ℕ
  pub file_attributes : ℕ
  pub share_access : ℕ
  pub create_disposition : ℕ
  pub create_options : ℕ
  pub name : List ℕ
  pub contexts : List Bytes

-- The name and the contexts; `off` is where the name ends.
abbrev name_writes : List ℕ → List Write
name_writes name =
    encode_string (64 + 56) name ∷ u16 (64 + 44) (56 + 64) ∷ u16 (64 + 46) (2 * length name) ∷ []

abbrev context_writes : ℕ → List Bytes → List Write
context_writes off contexts =
    create_contexts_from 48 off contexts ++ (u32 (64 + 52) (contexts_end off contexts - off) ∷ [])

-- Size
abbrev pub size : CreateRequest → ℕ
size c =
    if length c.name == 0 && length c.contexts == 0
    then 64 + 56 + 1
    else contexts_end (64 + 56 + encoded_string_len c.name) c.contexts

-- The writes of Encode
abbrev fields : CreateRequest → List Write
fields c =
    u16 64 57
    ∷ u8 (64 + 2) c.security_flags
    ∷ u8 (64 + 3) c.requested_oplock_level
    ∷ u32 (64 + 4) c.impersonation_level
    ∷ u64 (64 + 8) c.smb_create_flags
    ∷ u32 (64 + 24) c.desired_access
    ∷ u32 (64 + 28) c.file_attributes
    ∷ u32 (64 + 32) c.share_access
    ∷ u32 (64 + 36) c.create_disposition
    ∷ u32 (64 + 40) c.create_options
    ∷ []

-- Encode
pub encode : PacketHeader → CreateRequest → Slice → Slice
encode h c pkt =
    write_all
      (fields c ++ (name_writes c.name ++ context_writes (56 + 2 * length c.name) c.contexts))
      (encode_header (record h { command = 5 }) pkt)

-- The bytes of Name: offset and end are uint16, and so is the difference.
name : Slice → Decoded Bytes
unfolding slice
name r =
    let off = (uint16 44 r + 2 ^ 16 - 64) % 2 ^ 16 in slice off ((off + uint16 46 r) % 2 ^ 16) r

-- CreateContexts: offset and end are uint32, and so is the difference.
create_contexts : Slice → Decoded Bytes
unfolding slice
create_contexts r =
    let off = (uint32 48 r + 2 ^ 32 - 64) % 2 ^ 32 in
    if uint32 52 r == 0 then decoded [] else slice off ((off + uint32 52 r) % 2 ^ 32) r

-- IsInvalid
is_invalid : Slice → Bool
is_invalid r =
    if ltb r.len 56
    then true
    else if not (uint16 0 r == 57)
    then true
    else if not (uint16 44 r % 8 == 0)
    then true
    else if ltb (r.len + 64) ((uint16 44 r + uint16 46 r) % 2 ^ 16)
    then true
    else if not (uint32 48 r % 8 == 0)
    then true
    else ltb (r.len + 64) ((uint32 48 r + uint32 52 r) % 2 ^ 32)

-- What the decoder reads
pub record CreateRequestView : Type 0 where
  pub security_flags : ℕ
  pub requested_oplock_level : ℕ
  pub impersonation_level : ℕ
  pub smb_create_flags : ℕ
  pub desired_access : ℕ
  pub file_attributes : ℕ
  pub share_access : ℕ
  pub create_disposition : ℕ
  pub create_options : ℕ
  pub name : List ℕ
  pub create_contexts : Bytes

-- The fields, read behind IsInvalid
pub decode : Slice → Decoded CreateRequestView
decode r =
    if is_invalid r
    then rejected
    else (name r >>= λ name_bytes. create_contexts r >>= λ contexts. decoded (record {
      security_flags = r.byte 2;
      requested_oplock_level = r.byte 3;
      impersonation_level = uint32 4 r;
      smb_create_flags = uint64 8 r;
      desired_access = uint32 24 r;
      file_attributes = uint32 28 r;
      share_access = uint32 32 r;
      create_disposition = uint32 36 r;
      create_options = uint32 40 r;
      name = decode_to_string name_bytes;
      create_contexts = contexts;
    }))

-- What fits into the fields
abbrev pub IsWire : CreateRequest → Type 0
IsWire c =
    (c.security_flags < 2 ^ 8)
    × (c.requested_oplock_level < 2 ^ 8)
    × (c.impersonation_level < 2 ^ 32)
    × (c.smb_create_flags < 2 ^ 64)
    × (c.desired_access < 2 ^ 32)
    × (c.file_attributes < 2 ^ 32)
    × (c.share_access < 2 ^ 32)
    × (c.create_disposition < 2 ^ 32)
    × (c.create_options < 2 ^ 32)
    × IsText c.name
    × (length c.name < 2 ^ 14)

module _ (h : PacketHeader) (c : CreateRequest) (w : IsWire (record c { contexts = [] })) where
  abbrev full : CreateRequest
  full = record c { contexts = [] }

  abbrev pub sent : Slice
  sent = encode h full (zeroed (size full))

  sent_len : sent.len ≡ size full
  unfolding encode
  sent_len = len-encode_header (record h { command = 5 }) (zeroed (size full))

  sent_fault : sent.fault ≡ false
  unfolding encode
  sent_fault =
      fault-write_all-encode_header (record h { command = 5 }) (zeroed (size full)) (size full)
        (fields full
          ++ (name_writes full.name ++ context_writes (56 + 2 * length full.name) full.contexts))
        refl refl (ground arith) (ground (arith, length-unit_bytes full.name))

  sent_text : bytes_at 56 (length (unit_bytes full.name)) (from 64 sent) ≡ unit_bytes full.name
  unfolding encode
  sent_text =
      bytes_at-raw 56 (unit_bytes full.name) (fields full)
        (u16 (64 + 44) 120
          ∷ u16 (64 + 46) (2 * length full.name)
          ∷ context_writes (56 + 2 * length full.name) [])
        (encode_header (record h { command = 5 }) (zeroed (size full))) (omega arith)

  sent_offset : uint32 48 (from 64 sent) ≡ 0
  unfolding encode
  sent_offset = ground (
    arith,
    w,
    length-unit_bytes full.name,
    byte-encode_header (record h { command = 5 }) (zeroed (size full)) 112 (omega arith),
    byte-encode_header (record h { command = 5 }) (zeroed (size full)) 113 (omega arith),
    byte-encode_header (record h { command = 5 }) (zeroed (size full)) 114 (omega arith),
    byte-encode_header (record h { command = 5 }) (zeroed (size full)) 115 (omega arith),
  )

  sent_contexts_length : uint32 52 (from 64 sent) ≡ 0
  unfolding encode
  sent_contexts_length = ground arith

  sent_valid : is_invalid (from 64 sent) ≡ false
  unfolding encode is_invalid
  sent_valid = ground (
    arith,
    w,
    sent_len,
    length-unit_bytes full.name,
    word16 (2 * length full.name),
    sent_offset,
    sent_contexts_length,
  )

  sent-name : name (from 64 sent) ≡ decoded (unit_bytes full.name)
  unfolding encode name slice
  sent-name =
      ground
        (arith, w, sent_len, sent_text, length-unit_bytes full.name, word16 (2 * length full.name))

  sent_contexts : create_contexts (from 64 sent) ≡ decoded []
  unfolding create_contexts
  sent_contexts = rw sent_contexts_length refl

  pub decode-encode :
      (sent.fault ≡ false)
      × (decode (from 64 sent)
          ≡ decoded (record {
            security_flags = full.security_flags;
            requested_oplock_level = full.requested_oplock_level;
            impersonation_level = full.impersonation_level;
            smb_create_flags = full.smb_create_flags;
            desired_access = full.desired_access;
            file_attributes = full.file_attributes;
            share_access = full.share_access;
            create_disposition = full.create_disposition;
            create_options = full.create_options;
            name = full.name;
            create_contexts = [];
          }))
  unfolding encode decode
  decode-encode = (
    sent_fault,
    rw (sent_valid, sent-name, sent_contexts)
        (ground (
          arith,
          word8 full.security_flags w.0,
          word8 full.requested_oplock_level w.1,
          word32 full.impersonation_level w.2,
          word64 full.smb_create_flags w.3,
          word32 full.desired_access w.4,
          word32 full.file_attributes w.5,
          word32 full.share_access w.6,
          word32 full.create_disposition w.7,
          word32 full.create_options w.8,
          w,
          decode_to_string-unit_bytes full.name,
        )),
  )
