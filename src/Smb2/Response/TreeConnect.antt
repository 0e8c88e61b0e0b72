-- ===== src/Smb2/Response/TreeConnect.antt =====
-- internal/smb2/response.go: TreeConnectResponse and TreeConnectResponseDecoder.
use smb_mem_lib.Prelude.{
  ℕ, ◌+◌, ◌^◌, ◌<◌, ◌≡◌, refl, Bool, true, false, List, [], ◌∷◌, ltb, not, ◌==◌, if◌then◌else◌,
  arith,
}
use smb_mem_lib.Wire.{
  Slice, Write, u8, u16, u32, write_all, Decoded, rejected, decoded, zeroed, from, uint16, uint32,
}
use smb_mem_lib.Wire.Words.{word8, word32}
use smb_mem_lib.Smb2.Packet.{PacketHeader, encode_header}
use smb_mem_lib.Smb2.Packet.Headers.{len-encode_header, fault-write_all-encode_header}

pub record TreeConnectResponse : Type 0 where
  pub share_type : ℕ
  pub share_flags : ℕ
  pub capabilities : ℕ
  pub maximal_access : ℕ

-- Size
abbrev pub size : TreeConnectResponse → ℕ
size c = 64 + 16

-- The writes of Encode
abbrev fields : TreeConnectResponse → List Write
fields c =
    u16 64 16
    ∷ u8 (64 + 2) c.share_type
    ∷ u32 (64 + 4) c.share_flags
    ∷ u32 (64 + 8) c.capabilities
    ∷ u32 (64 + 12) c.maximal_access
    ∷ []

-- Encode
pub encode : PacketHeader → TreeConnectResponse → Slice → Slice
encode h c pkt = write_all (fields c) (encode_header (record h { command = 3 }) pkt)

-- IsInvalid
is_invalid : Slice → Bool
is_invalid r = if ltb r.len 16 then true else not (uint16 0 r == 16)

-- The fields, read behind IsInvalid
pub decode : Slice → Decoded TreeConnectResponse
decode r =
    if is_invalid r
    then rejected
    else (decoded (record {
      share_type = r.byte 2;
      share_flags = uint32 4 r;
      capabilities = uint32 8 r;
      maximal_access = uint32 12 r;
    }))

-- What fits into the fields
abbrev pub IsWire : TreeConnectResponse → Type 0
IsWire c =
    (c.share_type < 2 ^ 8)
    × (c.share_flags < 2 ^ 32)
    × (c.capabilities < 2 ^ 32)
    × (c.maximal_access < 2 ^ 32)

module _ (h : PacketHeader) (c : TreeConnectResponse) (w : IsWire c) where
  abbrev pub sent : Slice
  sent = encode h c (zeroed (size c))

  sent_len : sent.len ≡ size c
  unfolding encode
  sent_len = len-encode_header (record h { command = 3 }) (zeroed (size c))

  sent_fault : sent.fault ≡ false
  unfolding encode
  sent_fault =
      fault-write_all-encode_header (record h { command = 3 }) (zeroed (size c)) (size c) (fields c)
        refl refl (omega arith) (omega arith)

  sent_valid : is_invalid (from 64 sent) ≡ false
  unfolding encode is_invalid
  sent_valid = ground (arith, w, sent_len)

  pub decode-encode : (sent.fault ≡ false) × (decode (from 64 sent) ≡ decoded c)
  unfolding encode decode
  decode-encode = (
    sent_fault,
    rw (sent_valid) (
        ground (
          arith,
          word8 c.share_type w.0,
          word32 c.share_flags w.1,
          word32 c.capabilities w.2,
          word32 c.maximal_access w.3,
        )),
  )
