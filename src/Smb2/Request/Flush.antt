-- ===== src/Smb2/Request/Flush.antt =====
-- internal/smb2/request.go: FlushRequest and FlushRequestDecoder.
use smb_mem_lib.Prelude.{
  ℕ, ◌+◌, ◌≡◌, refl, Bool, true, false, List, ◌∷◌, ltb, not, ◌==◌, if◌then◌else◌, arith,
}
use smb_mem_lib.Wire.{
  Slice, Write, u16, write_all, Decoded, rejected, decoded, zeroed, from, uint16,
}
use smb_mem_lib.Wire.Words.{word64}
use smb_mem_lib.Smb2.Packet.{
  PacketHeader, encode_header, FileId, file_id_writes, file_id_at, IsFileId,
}
use smb_mem_lib.Smb2.Packet.Headers.{len-encode_header, fault-write_all-encode_header}

pub record FlushRequest : Type 0 where
  pub file_id : FileId

-- Size
abbrev pub size : FlushRequest → ℕ
size c = 64 + 24

-- The writes of Encode
abbrev fields : FlushRequest → List Write
fields c = u16 64 24 ∷ (file_id_writes (64 + 8) c.file_id)

-- Encode
pub encode : PacketHeader → FlushRequest → Slice → Slice
encode h c pkt = write_all (fields c) (encode_header (record h { command = 7 }) pkt)

-- IsInvalid
is_invalid : Slice → Bool
is_invalid r = if ltb r.len 24 then true else not (uint16 0 r == 24)

-- The fields, read behind IsInvalid
pub decode : Slice → Decoded FlushRequest
decode r = if is_invalid r then rejected else (decoded (record { file_id = file_id_at 8 r }))

-- What fits into the fields
abbrev pub IsWire : FlushRequest → Type 0
IsWire c = IsFileId c.file_id

module _ (h : PacketHeader) (c : FlushRequest) (w : IsWire c) where
  abbrev pub sent : Slice
  sent = encode h c (zeroed (size c))

  sent_len : sent.len ≡ size c
  unfolding encode
  sent_len = len-encode_header (record h { command = 7 }) (zeroed (size c))

  sent_fault : sent.fault ≡ false
  unfolding encode
  sent_fault =
      fault-write_all-encode_header (record h { command = 7 }) (zeroed (size c)) (size c) (fields c)
        refl refl (omega arith) (omega arith)

  sent_valid : is_invalid (from 64 sent) ≡ false
  unfolding encode is_invalid
  sent_valid = ground (arith, w, sent_len)

  pub decode-encode : (sent.fault ≡ false) × (decode (from 64 sent) ≡ decoded c)
  unfolding encode decode
  decode-encode = (
    sent_fault,
    rw (sent_valid)
        (ground (arith, word64 c.file_id.persistent w.0, word64 c.file_id.volatile w.1)),
  )
