-- ===== src/Conn/Chain.antt =====
-- server/compound.go: the responses of a compound request in one message.
pub mod Bytes
pub mod Marks
pub mod Rounds
pub mod RoundTrip
use smb_mem_lib.Prelude.{
  ℕ, ◌+◌, ◌-◌, ◌*◌, ◌/◌, ◌%◌, ◌^◌, Bool, true, false, ◌&&◌, ◌||◌, List, [], ◌∷◌, ltb, leb, ◌==◌,
  if◌then◌else◌,
}
use smb_mem_lib.Wire.{Slice, put32, uint32, roundup8, zeroed}
use smb_mem_lib.Smb2.Packet.Codec.{has_related}

-- Size, of the responses `rsp`
abbrev pub chain_size : List Slice → ℕ
chain_size [] = 0
chain_size (p ∷ ps) = roundup8 p.len + chain_size ps

-- `flags | SMB2_FLAGS_RELATED_OPERATIONS`
abbrev pub or_related : ℕ → ℕ
or_related flags = if has_related flags then flags else flags + 4

-- `i > 0`: SetFlags; SetNextCommand
abbrev pub set_related : Bool → Slice → Slice
set_related first p = if first then p else put32 16 (or_related (uint32 16 p)) p

abbrev pub set_next : ℕ → Slice → Slice
set_next l p = put32 20 l p

-- copy(buf[off:], pkt)
abbrev pub copy_slice : ℕ → Slice → Slice → Slice
copy_slice off p b = record {
  len = b.len;
  byte =
      λ i. if leb off i && (ltb i (off + p.len) && ltb i b.len) then p.byte (i - off) else b.byte i;
  fault = b.fault || (p.fault || ltb b.len off);
}

-- The loop of Encode from the response at `off` on
abbrev pub encode_from : ℕ → Bool → List Slice → Slice → Slice
encode_from off first [] b = b
encode_from off first (p ∷ []) b = copy_slice off (set_related first p) b
encode_from off first (p ∷ q ∷ ps) b =
    encode_from (off + roundup8 p.len) false (q ∷ ps)
      (copy_slice off (set_next (roundup8 p.len) (set_related first p)) b)

-- Encode, into the slice that sendPacket makes
pub encode_chain : List Slice → Slice
encode_chain ps = encode_from 0 true ps (zeroed (chain_size ps))
