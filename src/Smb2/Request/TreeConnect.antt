-- ===== src/Smb2/Request/TreeConnect.antt =====
-- internal/smb2/request.go: TreeConnectRequest and TreeConnectRequestDecoder.
use smb_mem_lib.Prelude.{
  ℕ, ◌+◌, ◌-◌, ◌*◌, ◌%◌, ◌^◌, ◌<◌, ◌≡◌, refl, Bool, true, false, List, ◌++◌, [], ◌∷◌, Bytes, length,
  ltb, not, ◌==◌, if◌then◌else◌, arith,
}
use smb_mem_lib.Wire.{
  Slice, Write, u16, write_all, Decoded, rejected, decoded, ◌>>=◌, zeroed, from, uint16, slice,
  bytes_at, encode_string, encoded_string_len, decode_to_string, unit_bytes,
}
use smb_mem_lib.Wire.Words.{word16, length-unit_bytes, IsText, decode_to_string-unit_bytes}
use smb_mem_lib.Wire.Writes.{bytes_at-raw}
use smb_mem_lib.Smb2.Packet.{PacketHeader, encode_header}
use smb_mem_lib.Smb2.Packet.Headers.{len-encode_header, fault-write_all-encode_header}

pub record TreeConnectRequest : Type 0 where
  pub flags : ℕ
  pub path : List ℕ

-- Size
abbrev pub size : TreeConnectRequest → ℕ
size c = if length c.path == 0 then 64 + 8 + 1 else 64 + 8 + encoded_string_len c.path

-- The writes of Encode before the variable part, and those after it
abbrev fields : TreeConnectRequest → List Write
fields c = u16 64 9 ∷ u16 (64 + 2) c.flags ∷ []

abbrev last_fields : TreeConnectRequest → List Write
last_fields c = u16 (64 + 4) (64 + 8) ∷ u16 (64 + 6) (2 * length c.path) ∷ []

-- Encode
pub encode : PacketHeader → TreeConnectRequest → Slice → Slice
encode h c pkt =
    write_all (fields c ++ (encode_string (64 + 8) c.path ∷ last_fields c))
      (encode_header (record h { command = 3 }) pkt)

-- The bytes of Path: offset and end are uint16.
unfoldable pub path : Slice → Decoded Bytes
unfolding slice
path r =
    if ltb (uint16 4 r) (64 + 8)
    then decoded []
    else slice (uint16 4 r - 64) ((uint16 4 r - 64 + uint16 6 r) % 2 ^ 16) r

-- IsInvalid
unfoldable pub is_invalid : Slice → Bool
is_invalid r =
    if ltb r.len 8
    then true
    else if not (uint16 0 r == 9)
    then true
    else ltb (r.len + 64) ((uint16 4 r + uint16 6 r) % 2 ^ 16)

-- The fields, read behind IsInvalid
pub decode : Slice → Decoded TreeConnectRequest
decode r =
    if is_invalid r
    then rejected
    else (path r >>= λ path_bytes.
        decoded (record { flags = uint16 2 r; path = decode_to_string path_bytes }))

-- What fits into the fields
abbrev pub IsWire : TreeConnectRequest → Type 0
IsWire c = (c.flags < 2 ^ 16) × IsText c.path × (length c.path < 2 ^ 14)

module _ (h : PacketHeader) (c : TreeConnectRequest) (w : IsWire c) where
  abbrev pub sent : Slice
  sent = encode h c (zeroed (size c))

  sent_len : sent.len ≡ size c
  unfolding encode
  sent_len = len-encode_header (record h { command = 3 }) (zeroed (size c))

  sent_fault : sent.fault ≡ false
  unfolding encode
  sent_fault =
      fault-write_all-encode_header (record h { command = 3 }) (zeroed (size c)) (size c)
        (fields c ++ (encode_string (64 + 8) c.path ∷ last_fields c)) refl refl (ground arith)
        (ground (arith, length-unit_bytes c.path))

  sent_text : bytes_at 8 (length (unit_bytes c.path)) (from 64 sent) ≡ unit_bytes c.path
  unfolding encode
  sent_text =
      bytes_at-raw 8 (unit_bytes c.path) (fields c) (last_fields c)
        (encode_header (record h { command = 3 }) (zeroed (size c))) (omega arith)

  sent_valid : is_invalid (from 64 sent) ≡ false
  unfolding encode is_invalid
  sent_valid = ground (arith, w, sent_len, length-unit_bytes c.path, word16 (2 * length c.path))

  sent-path : path (from 64 sent) ≡ decoded (unit_bytes c.path)
  unfolding encode path slice
  sent-path =
      ground (arith, w, sent_len, sent_text, length-unit_bytes c.path, word16 (2 * length c.path))

  pub decode-encode : (sent.fault ≡ false) × (decode (from 64 sent) ≡ decoded c)
  unfolding encode decode
  decode-encode = (
    sent_fault,
    rw (sent_valid, sent-path)
        (ground (arith, word16 c.flags w.0, w, decode_to_string-unit_bytes c.path)),
  )
