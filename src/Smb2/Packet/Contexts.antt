-- ===== src/Smb2/Packet/Contexts.antt =====
-- The loops of Encode in internal/smb2/request.go and internal/smb2/response.go that write Encoders
-- one after the other behind the fixed part, at offsets from the end of the header on.
use smb_mem_lib.Prelude.{ℕ, ◌+◌, List, [], ◌∷◌, Bytes, length}
use smb_mem_lib.Wire.{Write, u32, raw, roundup8}

-- The bytes that a list of Encoders takes without gaps.
abbrev pub encoders_size : List Bytes → ℕ
encoders_size [] = 0
encoders_size (e ∷ es) = length e + encoders_size es

-- `off` behind contexts that each start at the next multiple of 8.
abbrev pub contexts_end : ℕ → List Bytes → ℕ
contexts_end off [] = off
contexts_end off (e ∷ es) = contexts_end (roundup8 off + length e) es

-- The contexts of NEGOTIATE: the offset of the first is written at `at`.
abbrev plain_contexts : ℕ → List Bytes → List Write
plain_contexts off [] = []
plain_contexts off (e ∷ es) =
    raw (64 + roundup8 off) e ∷ plain_contexts (roundup8 off + length e) es

abbrev pub negotiate_contexts : ℕ → ℕ → List Bytes → List Write
negotiate_contexts at off [] = []
negotiate_contexts at off (e ∷ es) = u32 (64 + at) (64 + roundup8 off) ∷ plain_contexts off (e ∷ es)

-- The contexts of CREATE behind the first: `ctx` is where the one before starts, and `next` its size,
-- which is written as its Next.
abbrev create_contexts_after : ℕ → ℕ → ℕ → List Bytes → List Write
create_contexts_after ctx next off [] = []
create_contexts_after ctx next off (e ∷ es) =
    u32 (64 + ctx) next
    ∷ raw (64 + roundup8 off) e
    ∷ create_contexts_after (roundup8 off) (length e) (roundup8 off + length e) es

abbrev pub create_contexts_from : ℕ → ℕ → List Bytes → List Write
create_contexts_from at off [] = []
create_contexts_from at off (e ∷ es) =
    u32 (64 + at) (64 + roundup8 off)
    ∷ raw (64 + roundup8 off) e
    ∷ create_contexts_after (roundup8 off) (length e) (roundup8 off + length e) es
