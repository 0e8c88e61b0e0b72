-- ===== src/Smb2/Response/Write.antt =====
-- internal/smb2/response.go: WriteResponse and WriteResponseDecoder.
use smb_mem_lib.Prelude.{
  ℕ, ◌+◌, ◌^◌, ◌<◌, ◌≡◌, refl, Bool, true, false, List, [], ◌∷◌, ltb, not, ◌==◌, if◌then◌else◌,
  arith,
}
use smb_mem_lib.Wire.{
  Slice, Write, u16, u32, write_all, Decoded, rejected, decoded, zeroed, from, uint16, uint32,
}
use smb_mem_lib.Wire.Words.{word32}
use smb_mem_lib.Smb2.Packet.{PacketHeader, encode_header}
use smb_mem_lib.Smb2.Packet.Headers.{len-encode_header, fault-write_all-encode_header}

pub record WriteResponse : Type 0 where
  pub count : ℕ
  pub remaining : ℕ

-- Size
abbrev pub size : WriteResponse → ℕ
size c = 64 + 16 + 1

-- The writes of Encode
abbrev fields : WriteResponse → List Write
fields c = u16 64 17 ∷ u32 (64 + 4) c.count ∷ u32 (64 + 8) c.remaining ∷ []

-- Encode
pub encode : PacketHeader → WriteResponse → Slice → Slice
encode h c pkt = write_all (fields c) (encode_header (record h { command = 9 }) pkt)

-- IsInvalid
is_invalid : Slice → Bool
is_invalid r = if ltb r.len 16 then true else not (uint16 0 r == 17)

-- The fields, read behind IsInvalid
pub decode : Slice → Decoded WriteResponse
decode r =
    if is_invalid r
    then rejected
    else (decoded (record { count = uint32 4 r; remaining = uint32 8 r }))

-- What fits into the fields
abbrev pub IsWire : WriteResponse → Type 0
IsWire c = (c.count < 2 ^ 32) × (c.remaining < 2 ^ 32)

module _ (h : PacketHeader) (c : WriteResponse) (w : IsWire c) where
  abbrev pub sent : Slice
  sent = encode h c (zeroed (size c))

  sent_len : sent.len ≡ size c
  unfolding encode
  sent_len = len-encode_header (record h { command = 9 }) (zeroed (size c))

  sent_fault : sent.fault ≡ false
  unfolding encode
  sent_fault =
      fault-write_all-encode_header (record h { command = 9 }) (zeroed (size c)) (size c) (fields c)
        refl refl (ground arith) (ground arith)

  sent_valid : is_invalid (from 64 sent) ≡ false
  unfolding encode is_invalid
  sent_valid = ground (arith, w, sent_len)

  pub decode-encode : (sent.fault ≡ false) × (decode (from 64 sent) ≡ decoded c)
  unfolding encode decode
  decode-encode =
      (sent_fault, rw (sent_valid) (ground (arith, word32 c.count w.0, word32 c.remaining w.1)))
