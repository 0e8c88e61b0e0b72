-- ===== src/Smb2/Response/Close.antt =====
-- internal/smb2/response.go: CloseResponse and CloseResponseDecoder.
use smb_mem_lib.Prelude.{
  ℕ, ◌+◌, ◌^◌, ◌<◌, ◌≡◌, refl, Bool, true, false, List, ◌++◌, [], ◌∷◌, ltb, not, Option, some, ◌==◌,
  if◌then◌else◌, arith,
}
use smb_mem_lib.Wire.{
  Slice, Write, u16, u32, u64, write_all, Decoded, rejected, decoded, zeroed, from, uint16, uint32,
  uint64,
}
use smb_mem_lib.Wire.Words.{word16, word32, word64}
use smb_mem_lib.Smb2.Packet.{
  PacketHeader, encode_header, Stamp, stamp_at, given_stamp_writes, IsGivenStamp,
}
use smb_mem_lib.Smb2.Packet.Headers.{len-encode_header, fault-write_all-encode_header}

pub record CloseResponse : Type 0 where
  pub close_flags : ℕ
  pub creation_time : Option Stamp
  pub last_access_time : Option Stamp
  pub last_write_time : Option Stamp
  pub change_time : Option Stamp
  pub allocation_size : ℕ
  pub endof_file : ℕ
  pub file_attributes : ℕ

-- Size
abbrev pub size : CloseResponse → ℕ
size c = 64 + 60

-- The writes of Encode
abbrev fields : CloseResponse → List Write
fields c =
    u16 64 60
    ∷ u16 (64 + 2) c.close_flags
    ∷ (given_stamp_writes (64 + 8) c.creation_time
        ++ (given_stamp_writes (64 + 16) c.last_access_time
            ++ (given_stamp_writes (64 + 24) c.last_write_time
                ++ (given_stamp_writes (64 + 32) c.change_time
                    ++ (u64 (64 + 40) c.allocation_size
                        ∷ u64 (64 + 48) c.endof_file
                        ∷ u32 (64 + 56) c.file_attributes
                        ∷ [])))))

-- Encode
pub encode : PacketHeader → CloseResponse → Slice → Slice
encode h c pkt = write_all (fields c) (encode_header (record h { command = 6 }) pkt)

-- IsInvalid
is_invalid : Slice → Bool
is_invalid r = if ltb r.len 60 then true else not (uint16 0 r == 60)

-- The fields, read behind IsInvalid
pub decode : Slice → Decoded CloseResponse
decode r =
    if is_invalid r
    then rejected
    else (decoded (record {
      close_flags = uint16 2 r;
      creation_time = some (stamp_at 8 r);
      last_access_time = some (stamp_at 16 r);
      last_write_time = some (stamp_at 24 r);
      change_time = some (stamp_at 32 r);
      allocation_size = uint64 40 r;
      endof_file = uint64 48 r;
      file_attributes = uint32 56 r;
    }))

-- What fits into the fields
abbrev pub IsWire : CloseResponse → Type 0
IsWire c =
    (c.close_flags < 2 ^ 16)
    × IsGivenStamp c.creation_time
    × IsGivenStamp c.last_access_time
    × IsGivenStamp c.last_write_time
    × IsGivenStamp c.change_time
    × (c.allocation_size < 2 ^ 64)
    × (c.endof_file < 2 ^ 64)
    × (c.file_attributes < 2 ^ 32)

module _ (h : PacketHeader) (c : CloseResponse) (creation_time : Stamp) (last_access_time : Stamp)
    (last_write_time : Stamp) (change_time : Stamp)
    (w : IsWire (record c {
      creation_time = some creation_time;
      last_access_time = some last_access_time;
      last_write_time = some last_write_time;
      change_time = some change_time;
    })) where
  abbrev full : CloseResponse
  full = record c {
    creation_time = some creation_time;
    last_access_time = some last_access_time;
    last_write_time = some last_write_time;
    change_time = some change_time;
  }

  abbrev pub sent : Slice
  sent = encode h full (zeroed (size full))

  sent_len : sent.len ≡ size full
  unfolding encode
  sent_len = len-encode_header (record h { command = 6 }) (zeroed (size full))

  sent_fault : sent.fault ≡ false
  unfolding encode
  sent_fault =
      fault-write_all-encode_header (record h { command = 6 }) (zeroed (size full)) (size full)
        (fields full) refl refl (omega arith) (omega arith)

  sent_valid : is_invalid (from 64 sent) ≡ false
  unfolding encode is_invalid
  sent_valid = ground (arith, w, sent_len)

  pub decode-encode : (sent.fault ≡ false) × (decode (from 64 sent) ≡ decoded full)
  unfolding encode decode
  decode-encode = (
    sent_fault,
    rw (sent_valid) (
        ground (
          arith,
          word16 full.close_flags w.0,
          word32 creation_time.low w.1.0,
          word32 creation_time.high w.1.1,
          word32 last_access_time.low w.2.0,
          word32 last_access_time.high w.2.1,
          word32 last_write_time.low w.3.0,
          word32 last_write_time.high w.3.1,
          word32 change_time.low w.4.0,
          word32 change_time.high w.4.1,
          word64 full.allocation_size w.5,
          word64 full.endof_file w.6,
          word32 full.file_attributes w.7,
        )),
  )
