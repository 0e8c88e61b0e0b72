-- ===== src/Smb2/Packet/Headers.antt =====
-- encodeHeader of internal/smb2/packet.go leaves what lies behind the header.
use smb_mem_lib.Prelude.{ℕ, ◌≤◌, ◌≡◌, ◌∙◌, false, List, All, All-mono, arith}
use smb_mem_lib.Wire.{Slice, Write, write_all}
use smb_mem_lib.Wire.Writes.{finish, len-write_all, fault-write_all, byte_behind-write_all}
use smb_mem_lib.Smb2.Packet.{PacketHeader, header_writes, encode_header}

header_writes-finish : (h : PacketHeader) → All (λ w. finish w ≤ 64) (header_writes h)
header_writes-finish h = ground arith

module _ (h : PacketHeader) (p : Slice) where
  pub len-encode_header : (encode_header h p).len ≡ p.len
  unfolding encode_header
  len-encode_header = len-write_all (header_writes h) p

  pub byte-encode_header : (i : ℕ) → 64 ≤ i → (encode_header h p).byte i ≡ p.byte i
  unfolding encode_header
  byte-encode_header i = byte_behind-write_all 64 i (header_writes h) p (header_writes-finish h)

  -- Writes into a whole slice that lie within it, behind a header.
  pub fault-write_all-encode_header :
      (n : ℕ) (ws : List Write)
      → p.len ≡ n
      → p.fault ≡ false
      → 64 ≤ n
      → All (λ w. finish w ≤ n) ws
      → (write_all ws (encode_header h p)).fault ≡ false
  unfolding encode_header
  fault-write_all-encode_header n ws l e room fit =
      fault-write_all n ws (write_all (header_writes h) p) (len-encode_header ∙ l) fit (
        fault-write_all n (header_writes h) p l
          (All-mono (λ w. finish w ≤ 64) (λ w. finish w ≤ n) (λ w k. omega (arith, k, room))
            (header_writes h) (header_writes-finish h))
          e)
