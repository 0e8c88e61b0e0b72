-- ===== src/Smb2/Response/Create.antt =====
-- internal/smb2/response.go: CreateResponse and CreateResponseDecoder.
use smb_mem_lib.Prelude.{
  ℕ, ◌+◌, ◌-◌, ◌%◌, ◌^◌, ◌<◌, ◌≡◌, refl, Bool, true, false, List, ◌++◌, [], ◌∷◌, Bytes, length, ltb,
  not, Option, some, ◌==◌, if◌then◌else◌, arith,
}
use smb_mem_lib.Wire.{
  Slice, Write, u8, u16, u32, u64, write_all, Decoded, rejected, decoded, ◌>>=◌, zeroed, from,
  uint16, uint32, uint64, slice,
}
use smb_mem_lib.Wire.Words.{word8, word32, word64}
use smb_mem_lib.Smb2.Packet.{
  PacketHeader, encode_header, FileId, file_id_writes, file_id_at, IsFileId, Stamp, stamp_at,
  given_stamp_writes, IsGivenStamp,
}
use smb_mem_lib.Smb2.Packet.Contexts.{contexts_end, create_contexts_from}
use smb_mem_lib.Smb2.Packet.Headers.{
  len-encode_header, byte-encode_header, fault-write_all-encode_header,
}

pub record CreateResponse : Type 0 where
  pub oplock_level : ℕ
  pub rsp_flags : ℕ
  pub create_action : ℕ
  pub creation_time : Option Stamp
  pub last_access_time : Option Stamp
  pub last_write_time : Option Stamp
  pub change_time : Option Stamp
  pub allocation_size : ℕ
  pub endof_file : ℕ
  pub file_attributes : ℕ
  pub file_id : FileId
  pub contexts : List Bytes

-- The loop over Contexts, and CreateContextsLength
abbrev context_writes : List Bytes → List Write
context_writes contexts =
    create_contexts_from 80 88 contexts ++ (u32 (64 + 84) (contexts_end 88 contexts - 88) ∷ [])

-- Size
abbrev pub size : CreateResponse → ℕ
size c = if length c.contexts == 0 then 64 + 88 + 1 else contexts_end (64 + 88) c.contexts

-- The writes of Encode
abbrev fields : CreateResponse → List Write
fields c =
    u16 64 89
    ∷ u8 (64 + 2) c.oplock_level
    ∷ u8 (64 + 3) c.rsp_flags
    ∷ u32 (64 + 4) c.create_action
    ∷ (given_stamp_writes (64 + 8) c.creation_time
        ++ (given_stamp_writes (64 + 16) c.last_access_time
            ++ (given_stamp_writes (64 + 24) c.last_write_time
                ++ (given_stamp_writes (64 + 32) c.change_time
                    ++ (u64 (64 + 40) c.allocation_size
                        ∷ u64 (64 + 48) c.endof_file
                        ∷ u32 (64 + 56) c.file_attributes
                        ∷ (file_id_writes (64 + 64) c.file_id))))))

-- Encode
pub encode : PacketHeader → CreateResponse → Slice → Slice
encode h c pkt =
    write_all (fields c ++ context_writes c.contexts) (encode_header (record h { command = 5 }) pkt)

-- CreateContexts: the end is uint32.
create_contexts : Slice → Decoded Bytes
unfolding slice
create_contexts r =
    if ltb (uint32 80 r) (88 + 64)
    then decoded []
    else slice (uint32 80 r - 64) ((uint32 80 r - 64 + uint32 84 r) % 2 ^ 32) r

-- IsInvalid
is_invalid : Slice → Bool
is_invalid r =
    if ltb r.len 88
    then true
    else if not (uint16 0 r == 89)
    then true
    else if not (uint32 80 r % 8 == 0)
    then true
    else ltb (r.len + 64) ((uint32 80 r + uint32 84 r) % 2 ^ 32)

-- What the decoder reads
pub record CreateResponseView : Type 0 where
  pub oplock_level : ℕ
  pub rsp_flags : ℕ
  pub create_action : ℕ
  pub creation_time : Option Stamp
  pub last_access_time : Option Stamp
  pub last_write_time : Option Stamp
  pub change_time : Option Stamp
  pub allocation_size : ℕ
  pub endof_file : ℕ
  pub file_attributes : ℕ
  pub file_id : FileId
  pub create_contexts : Bytes

-- The fields, read behind IsInvalid
pub decode : Slice → Decoded CreateResponseView
decode r =
    if is_invalid r
    then rejected
    else (create_contexts r >>= λ contexts. decoded (record {
      oplock_level = r.byte 2;
      rsp_flags = r.byte 3;
      create_action = uint32 4 r;
      creation_time = some (stamp_at 8 r);
      last_access_time = some (stamp_at 16 r);
      last_write_time = some (stamp_at 24 r);
      change_time = some (stamp_at 32 r);
      allocation_size = uint64 40 r;
      endof_file = uint64 48 r;
      file_attributes = uint32 56 r;
      file_id = file_id_at 64 r;
      create_contexts = contexts;
    }))

-- What fits into the fields
abbrev pub IsWire : CreateResponse → Type 0
IsWire c =
    (c.oplock_level < 2 ^ 8)
    × (c.rsp_flags < 2 ^ 8)
    × (c.create_action < 2 ^ 32)
    × IsGivenStamp c.creation_time
    × IsGivenStamp c.last_access_time
    × IsGivenStamp c.last_write_time
    × IsGivenStamp c.change_time
    × (c.allocation_size < 2 ^ 64)
    × (c.endof_file < 2 ^ 64)
    × (c.file_attributes < 2 ^ 32)
    × IsFileId c.file_id

module _ (h : PacketHeader) (c : CreateResponse) (creation_time : Stamp) (last_access_time : Stamp)
    (last_write_time : Stamp) (change_time : Stamp)
    (w : IsWire (record c {
      creation_time = some creation_time;
      last_access_time = some last_access_time;
      last_write_time = some last_write_time;
      change_time = some change_time;
      contexts = [];
    })) where
  abbrev full : CreateResponse
  full = record c {
    creation_time = some creation_time;
    last_access_time = some last_access_time;
    last_write_time = some last_write_time;
    change_time = some change_time;
    contexts = [];
  }

  abbrev pub sent : Slice
  sent = encode h full (zeroed (size full))

  sent_len : sent.len ≡ size full
  unfolding encode
  sent_len = len-encode_header (record h { command = 5 }) (zeroed (size full))

  sent_fault : sent.fault ≡ false
  unfolding encode
  sent_fault =
      fault-write_all-encode_header (record h { command = 5 }) (zeroed (size full)) (size full)
        (fields full ++ context_writes full.contexts) refl refl (ground arith) (ground arith)

  sent_offset : uint32 80 (from 64 sent) ≡ 0
  unfolding encode
  sent_offset = ground (
    arith,
    byte-encode_header (record h { command = 5 }) (zeroed (size full)) 144 (omega arith),
    byte-encode_header (record h { command = 5 }) (zeroed (size full)) 145 (omega arith),
    byte-encode_header (record h { command = 5 }) (zeroed (size full)) 146 (omega arith),
    byte-encode_header (record h { command = 5 }) (zeroed (size full)) 147 (omega arith),
  )

  sent_contexts_length : uint32 84 (from 64 sent) ≡ 0
  unfolding encode
  sent_contexts_length = ground arith

  sent_valid : is_invalid (from 64 sent) ≡ false
  unfolding encode is_invalid
  sent_valid = ground (arith, w, sent_len, sent_offset, sent_contexts_length)

  sent_contexts : create_contexts (from 64 sent) ≡ decoded []
  unfolding create_contexts
  sent_contexts = rw sent_offset refl

  pub decode-encode :
      (sent.fault ≡ false)
      × (decode (from 64 sent)
          ≡ decoded (record {
            oplock_level = full.oplock_level;
            rsp_flags = full.rsp_flags;
            create_action = full.create_action;
            creation_time = some creation_time;
            last_access_time = some last_access_time;
            last_write_time = some last_write_time;
            change_time = some change_time;
            allocation_size = full.allocation_size;
            endof_file = full.endof_file;
            file_attributes = full.file_attributes;
            file_id = full.file_id;
            create_contexts = [];
          }))
  unfolding encode decode
  decode-encode = (
    sent_fault,
    rw (sent_valid, sent_contexts)
        (ground (
          arith,
          word8 full.oplock_level w.0,
          word8 full.rsp_flags w.1,
          word32 full.create_action w.2,
          word32 creation_time.low w.3.0,
          word32 creation_time.high w.3.1,
          word32 last_access_time.low w.4.0,
          word32 last_access_time.high w.4.1,
          word32 last_write_time.low w.5.0,
          word32 last_write_time.high w.5.1,
          word32 change_time.low w.6.0,
          word32 change_time.high w.6.1,
          word64 full.allocation_size w.7,
          word64 full.endof_file w.8,
          word32 full.file_attributes w.9,
          word64 full.file_id.persistent w.10.0,
          word64 full.file_id.volatile w.10.1,
        )),
  )
