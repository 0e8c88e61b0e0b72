-- ===== src/Smb2/Response/ChangeNotify.antt =====
-- internal/smb2/response.go: ChangeNotifyResponse.
use smb_mem_lib.Prelude.{ℕ, ◌+◌, List, ◌++◌, [], ◌∷◌, Bytes, length, Option, none, some}
use smb_mem_lib.Wire.{Slice, Write, u16, u32, raw, write_all}
use smb_mem_lib.Smb2.Packet.{PacketHeader, encode_header, given_size}

pub record ChangeNotifyResponse : Type 0 where
  pub output : Option Bytes

-- The writes of output
abbrev output_writes : Option Bytes → List Write
output_writes none = []
output_writes (some bs) = u16 (64 + 2) (64 + 8) ∷ raw (64 + 8) bs ∷ u32 (64 + 4) (length bs) ∷ []

-- Size
abbrev size : ChangeNotifyResponse → ℕ
size c = given_size (64 + 8) c.output

-- The writes of Encode
abbrev fields : ChangeNotifyResponse → List Write
fields c = u16 64 9 ∷ []

-- Encode
unfoldable pub encode : PacketHeader → ChangeNotifyResponse → Slice → Slice
encode h c pkt =
    write_all (fields c ++ output_writes c.output) (encode_header (record h { command = 15 }) pkt)
