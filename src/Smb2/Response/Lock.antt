-- ===== src/Smb2/Response/Lock.antt =====
-- internal/smb2/response.go: LockResponse.
use smb_mem_lib.Prelude.{ℕ, ◌+◌, List, [], ◌∷◌}
use smb_mem_lib.Wire.{Slice, Write, u16, write_all}
use smb_mem_lib.Smb2.Packet.{PacketHeader, encode_header}

pub record LockResponse : Type 0 where

-- Size
abbrev size : LockResponse → ℕ
size c = 64 + 4

-- The writes of Encode
abbrev fields : LockResponse → List Write
fields c = u16 64 4 ∷ u16 (64 + 2) 0 ∷ []

-- Encode
unfoldable pub encode : PacketHeader → LockResponse → Slice → Slice
encode h c pkt = write_all (fields c) (encode_header (record h { command = 10 }) pkt)
