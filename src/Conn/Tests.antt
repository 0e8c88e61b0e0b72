-- ===== src/Conn/Tests.antt =====
-- The receiver at concrete messages.
use smb_mem_lib.Prelude.{ℕ, List, suc, ◌≡◌, ◌⊎◌, refl, [], ◌∷◌, some, none, true, false, arith}
use smb_mem_lib.Wire.{Slice, u8, u16, u32, u64, write_all, zeroed, bytes_at}
use smb_mem_lib.Smb2.Packet.Codec.{
  is_invalid, is_smb1, is_smb1_negotiate, is_broken, is_compound_first, is_compound_last,
}
use smb_mem_lib.Conn.{Conn, receive, round, panic, try_handle, try_verify}
use smb_mem_lib.Conn.Cuts.{
  is_exhausted, joined, total, any_unverified, receive-ends, joined-receive,
}
use smb_mem_lib.Conn.Contexts.{is_empty, is_related_end, receive-lone_last}
use smb_mem_lib.Conn.Chain.{encode_chain, chain_size}
use smb_mem_lib.Conn.Chain.RoundTrip.{IsCutInto}
use smb_mem_lib.Conn.Send.{Answer, send_all, receive-send_all}

-- Two packets of 72 bytes, the second related to the first
abbrev chain : Slice
chain =
    write_all
      (u8 0 0xfe
        ∷ u8 1 b'S'
        ∷ u8 2 b'M'
        ∷ u8 3 b'B'
        ∷ u16 4 64
        ∷ u32 20 72
        ∷ u64 24 8
        ∷ u8 72 0xfe
        ∷ u8 73 b'S'
        ∷ u8 74 b'M'
        ∷ u8 75 b'B'
        ∷ u16 76 64
        ∷ u32 88 4
        ∷ u64 96 9
        ∷ [])
      (zeroed 144)

-- A packet on its own that says it is related
abbrev lone : Slice
lone =
    write_all (u8 0 0xfe ∷ u8 1 b'S' ∷ u8 2 b'M' ∷ u8 3 b'B' ∷ u16 4 64 ∷ u32 16 4 ∷ []) (zeroed 68)

abbrev plain_conn : Conn
plain_conn = record { session = none; require_signing = false }

-- A connection whose hash is always the same
abbrev strict_conn : Conn
strict_conn = record {
  session = some (record {
    session_id = 0;
    session_flags = 0;
    verifier = some (λ p. 1 ∷ []);
    decrypt = λ p. none;
  });
  require_signing = true;
}

receive-ends_example : is_exhausted (receive 145 strict_conn true false [] chain).end ≡ false
receive-ends_example = receive-ends strict_conn true false 145 [] chain (omega arith)

joined-receive_example :
    (total (receive 145 strict_conn true false [] chain).delivered ≡ 144)
    × ((any_unverified (receive 145 strict_conn true false [] chain).verdicts ≡ true)
        ⊎ (joined (receive 145 strict_conn true false [] chain).delivered ≡ bytes_at 0 144 chain))
unfolding receive round is_invalid is_smb1_negotiate is_smb1 is_broken is_compound_first
    is_compound_last try_handle try_verify
joined-receive_example = joined-receive strict_conn true false 145 [] chain refl

receive-lone_last_example :
    ((is_related_end lone ≡ true)
      × ((receive 69 plain_conn false false [] lone).delivered ≡ [])
      × ((receive 69 plain_conn false false [] lone).end ≡ panic))
    ⊎ ((is_related_end lone ≡ false)
        × (is_empty (receive 69 plain_conn false false [] lone).delivered ≡ false))
receive-lone_last_example =
    receive-lone_last 68 plain_conn false lone (omega arith, refl, refl) (omega arith) (omega arith)

-- Two responses of 73 and 68 bytes
abbrev first_response : Slice
first_response =
    write_all (u8 0 0xfe ∷ u8 1 b'S' ∷ u8 2 b'M' ∷ u8 3 b'B' ∷ u16 4 64 ∷ u32 16 1 ∷ []) (zeroed 73)

abbrev second_response : Slice
second_response =
    write_all (u8 0 0xfe ∷ u8 1 b'S' ∷ u8 2 b'M' ∷ u8 3 b'B' ∷ u16 4 64 ∷ u32 16 1 ∷ []) (zeroed 68)

abbrev answer : ℕ → Slice → Answer
answer i p = record {
  header = record {
    credit_charge = 1;
    channel_sequence = 0;
    status = 0;
    command = 5;
    credit_request_response = 1;
    flags = 1;
    message_id = i;
    async_id = 0;
    tree_id = 9;
    session_id = 4;
  };
  pkt = p;
}

abbrev all_packets : List Slice
all_packets = first_response ∷ second_response ∷ second_response ∷ []

receive-send_all_example :
    (send_all
        (answer 7 first_response ∷ answer 8 second_response ∷ answer 9 second_response ∷ [])
        (record { last_msg_id = 9; last_status = 0; rsp = [] })
      ≡ encode_chain all_packets ∷ [])
    × IsCutInto true all_packets (
        receive
          (suc (suc (chain_size all_packets)))
          plain_conn
          false
          false
          []
          (encode_chain all_packets))
receive-send_all_example =
    receive-send_all (answer 9 second_response) plain_conn false (answer 7 first_response)
      (answer 8 second_response ∷ []) (record { last_msg_id = 9; last_status = 0; rsp = [] })
      (ground arith) refl refl (ground arith) refl
