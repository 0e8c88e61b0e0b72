-- ===== src/Smb2/Request/Cancel.antt =====
-- internal/smb2/request.go: CancelRequest and CancelRequestDecoder.
use smb_mem_lib.Prelude.{
  ℕ, ◌+◌, ◌≡◌, refl, Bool, true, false, List, [], ◌∷◌, ltb, not, ◌==◌, if◌then◌else◌, arith,
}
use smb_mem_lib.Wire.{
  Slice, Write, u16, write_all, Decoded, rejected, decoded, zeroed, from, uint16,
}
use smb_mem_lib.Smb2.Packet.{PacketHeader, encode_header}
use smb_mem_lib.Smb2.Packet.Headers.{len-encode_header, fault-write_all-encode_header}

pub record CancelRequest : Type 0 where

-- Size
abbrev pub size : CancelRequest → ℕ
size c = 64 + 4

-- The writes of Encode
abbrev fields : CancelRequest → List Write
fields c = u16 64 4 ∷ []

-- Encode
pub encode : PacketHeader → CancelRequest → Slice → Slice
encode h c pkt = write_all (fields c) (encode_header (record h { command = 12 }) pkt)

-- IsInvalid
is_invalid : Slice → Bool
is_invalid r = if ltb r.len 4 then true else not (uint16 0 r == 4)

-- The fields, read behind IsInvalid
pub decode : Slice → Decoded CancelRequest
decode r = if is_invalid r then rejected else (decoded (record {}))

-- What fits into the fields
abbrev pub IsWire : CancelRequest → Type 0
IsWire c = Unit

module _ (h : PacketHeader) (c : CancelRequest) (w : IsWire c) where
  abbrev pub sent : Slice
  sent = encode h c (zeroed (size c))

  sent_len : sent.len ≡ size c
  unfolding encode
  sent_len = len-encode_header (record h { command = 12 }) (zeroed (size c))

  sent_fault : sent.fault ≡ false
  unfolding encode
  sent_fault =
      fault-write_all-encode_header (record h { command = 12 }) (zeroed (size c)) (size c)
        (fields c) refl refl (omega arith) (omega arith)

  sent_valid : is_invalid (from 64 sent) ≡ false
  unfolding encode is_invalid
  sent_valid = ground (arith, sent_len)

  pub decode-encode : (sent.fault ≡ false) × (decode (from 64 sent) ≡ decoded c)
  unfolding encode decode
  decode-encode = (sent_fault, rw (sent_valid) (refl))
