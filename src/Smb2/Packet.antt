-- ===== src/Smb2/Packet.antt =====
-- internal/smb2/packet.go: PacketHeader and PacketCodec.
pub mod Codec
pub mod Contexts
pub mod Headers
pub mod RoundTrip
use smb_mem_lib.Prelude.{
  Bytes, length, List, [], ◌∷◌, ◌++◌, ◌<◌, ℕ, ◌+◌, ◌*◌, ◌/◌, ◌%◌, ◌^◌, Bool, true, false, ◌&&◌,
  ◌||◌, not, Option, none, some, ltb, leb, ◌==◌, if◌then◌else◌,
}
use smb_mem_lib.Wire.{Slice, Write, u8, u16, u32, u64, write_all, uint16, uint32, uint64}

pub record PacketHeader : Type 0 where
  pub credit_charge : ℕ
  pub channel_sequence : ℕ
  pub status : ℕ
  pub command : ℕ
  pub credit_request_response : ℕ
  pub flags : ℕ
  pub message_id : ℕ
  pub async_id : ℕ
  pub tree_id : ℕ
  pub session_id : ℕ

-- The two switches of encodeHeader
abbrev status_writes : PacketHeader → List Write
status_writes h =
    if h.channel_sequence == 0
    then (if h.status == 0 then [] else u32 8 h.status ∷ [])
    else u16 8 h.channel_sequence ∷ []

abbrev id_writes : PacketHeader → List Write
id_writes h =
    if h.tree_id == 0
    then (if h.async_id == 0 then [] else u64 32 h.async_id ∷ [])
    else u32 36 h.tree_id ∷ []

abbrev pub header_writes : PacketHeader → List Write
header_writes h =
    u8 0 0xfe
    ∷ u8 1 b'S'
    ∷ u8 2 b'M'
    ∷ u8 3 b'B'
    ∷ u16 4 64
    ∷ u16 6 h.credit_charge
    ∷ (status_writes h
        ++ (u16 12 h.command
            ∷ u16 14 h.credit_request_response
            ∷ u32 16 h.flags
            ∷ u64 24 h.message_id
            ∷ (id_writes h ++ (u64 40 h.session_id ∷ []))))

-- encodeHeader; the first four bytes are MAGIC.
pub encode_header : PacketHeader → Slice → Slice
encode_header h = write_all (header_writes h)

-- FileId, whose eight-byte parts stand as the numbers that HandleId and NodeId read of them; a nil
-- FileId is written as the zero one.
pub record FileId : Type 0 where
  pub persistent : ℕ
  pub volatile : ℕ

abbrev pub file_id_writes : ℕ → FileId → List Write
file_id_writes off f = u64 off f.persistent ∷ u64 (off + 8) f.volatile ∷ []

abbrev pub file_id_at : ℕ → Slice → FileId
file_id_at off r = record { persistent = uint64 off r; volatile = uint64 (off + 8) r }

abbrev pub IsFileId : FileId → Type 0
IsFileId f = (f.persistent < 2 ^ 64) × (f.volatile < 2 ^ 64)

-- Guid, whose sixteen bytes stand as two numbers, low byte first.
pub record Guid : Type 0 where
  pub low : ℕ
  pub high : ℕ

abbrev pub guid_writes : ℕ → Guid → List Write
guid_writes off g = u64 off g.low ∷ u64 (off + 8) g.high ∷ []

abbrev pub guid_at : ℕ → Slice → Guid
guid_at off r = record { low = uint64 off r; high = uint64 (off + 8) r }

abbrev pub IsGuid : Guid → Type 0
IsGuid g = (g.low < 2 ^ 64) × (g.high < 2 ^ 64)

-- Filetime
pub record Stamp : Type 0 where
  pub low : ℕ
  pub high : ℕ

abbrev pub stamp_writes : ℕ → Stamp → List Write
stamp_writes off t = u32 off t.low ∷ u32 (off + 4) t.high ∷ []

abbrev pub stamp_at : ℕ → Slice → Stamp
stamp_at off r = record { low = uint32 off r; high = uint32 (off + 4) r }

abbrev pub IsStamp : Stamp → Type 0
IsStamp t = (t.low < 2 ^ 32) × (t.high < 2 ^ 32)

-- `if t != nil { t.Encode(...) }`
abbrev pub given_stamp_writes : ℕ → Option Stamp → List Write
given_stamp_writes off none = []
given_stamp_writes off (some t) = stamp_writes off t

abbrev pub IsGivenStamp : Option Stamp → Type 0
IsGivenStamp none = Unit
IsGivenStamp (some t) = IsStamp t

-- A part of `n` bytes and an Encoder, or one byte for a nil one. An Encoder stands as the bytes it
-- writes.
abbrev pub given_size : ℕ → Option Bytes → ℕ
given_size n none = n + 1
given_size n (some bs) = n + length bs
