-- ===== src/Smb2/Response/Echo.antt =====
-- internal/smb2/response.go: EchoResponse.
use smb_mem_lib.Prelude.{ℕ, ◌+◌, List, [], ◌∷◌}
use smb_mem_lib.Wire.{Slice, Write, u16, write_all}
use smb_mem_lib.Smb2.Packet.{PacketHeader, encode_header}

pub record EchoResponse : Type 0 where

-- Size
abbrev size : EchoResponse → ℕ
size c = 64 + 4

-- The writes of Encode
abbrev fields : EchoResponse → List Write
fields c = u16 64 4 ∷ u16 (64 + 2) 0 ∷ []

-- Encode
unfoldable pub encode : PacketHeader → EchoResponse → Slice → Slice
encode h c pkt = write_all (fields c) (encode_header (record h { command = 13 }) pkt)
