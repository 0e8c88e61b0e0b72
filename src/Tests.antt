-- ===== src/Tests.antt =====
-- The theorems on credits, paths, permissions, wire formats and the CCM mode at concrete inputs.
use smb_mem_lib.Prelude.{◌≡◌, refl, length, false, some, [], ◌∷◌, Bytes, replicate, arith}
use smb_mem_lib.Credit.{Account, granted, loan, loan_lem}
use smb_mem_lib.Ccm.{done, seal, open_ciphertext}
use smb_mem_lib.Ccm.Laws.{open_ciphertext-seal, seal_cut}
use smb_mem_lib.Dtyp.Filetime.{nanoseconds, nsec_to_filetime, nanoseconds-nsec_to_filetime}
use smb_mem_lib.Dtyp.Sid
use smb_mem_lib.Dtyp.Sid.{decode-encode_shifted}

abbrev account : Account
account = record { capacity = 128; balance = 3; opening = 0 }

loan_lem_example : loan false 5 account ≡ (granted 3 false, record account { balance = 0 })
loan_lem_example = loan_lem 5 account (omega arith) (omega arith)

nanoseconds-nsec_to_filetime_example : nanoseconds (nsec_to_filetime 1234567) ≡ 1234500
nanoseconds-nsec_to_filetime_example = nanoseconds-nsec_to_filetime 1234567 (omega arith)

-- S-1-5-32-544
abbrev administrators : Sid.Sid
administrators = record { revision = 1; identifier_authority = 5; sub_authority = 32 ∷ 544 ∷ [] }

decode-encode_shifted_example :
    (q : Bytes) × (Sid.encode administrators (replicate 16 0) ≡ some q)
    × (Sid.is_invalid q ≡ false)
    × (Sid.decode q ≡ some (record administrators { identifier_authority = 0 }))
decode-encode_shifted_example =
    decode-encode_shifted administrators (replicate 16 0) (omega arith)
      (omega arith, (omega arith, tt)) (omega arith) (omega arith)

-- A cipher and a key stream that change nothing, with a nonce of thirteen bytes.
abbrev same_block : Bytes → Bytes
same_block b = b

abbrev same_stream : Bytes → Bytes → Bytes
same_stream iv s = s

abbrev nonce : Bytes
nonce = replicate 13 7

open_ciphertext-seal_example :
    (c : Bytes) × (seal same_block 13 4 same_stream [] nonce (1 ∷ 2 ∷ 3 ∷ []) (9 ∷ []) ≡ done c)
    × (open_ciphertext same_block 13 4 same_stream (8 ∷ []) nonce c (9 ∷ [])
        ≡ done (8 ∷ 1 ∷ 2 ∷ 3 ∷ []))
open_ciphertext-seal_example =
    open_ciphertext-seal same_block (λ b h. h) 13 4 same_stream (λ iv s. refl) (λ iv s. refl) nonce
      (1 ∷ 2 ∷ 3 ∷ []) (9 ∷ []) refl (omega arith) (omega arith) (8 ∷ []) (omega arith)
      (omega arith)

seal_cut_example :
    (c : Bytes) × (seal same_block 13 4 same_stream (8 ∷ []) nonce (1 ∷ 2 ∷ 3 ∷ []) [] ≡ done c)
    × (length c ≡ 7)
seal_cut_example =
    seal_cut same_block (λ b h. h) 13 4 same_stream (λ iv s. refl) (λ iv s. refl) nonce
      (1 ∷ 2 ∷ 3 ∷ []) [] refl (omega arith) (omega arith) (8 ∷ []) (omega arith)
