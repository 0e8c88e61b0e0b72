-- ===== src/Conn/Send.antt =====
-- sendPacket of server/conn.go with a compoundContext: responses are kept until the last request of the
-- chain is answered. The packets are those that encodePacket has made.
use smb_mem_lib.Prelude.{
  ℕ, suc, ◌≡◌, refl, ◌∙◌, Bool, true, false, List, [], ◌∷◌, ◌++◌, Option, none, some, All, ◌==◌,
  if◌then◌else◌,
}
use mathlib.Core.List.{append_assoc}
use smb_mem_lib.Wire.{Slice, uint32}
use smb_mem_lib.Smb2.Packet.{PacketHeader}
use smb_mem_lib.Smb2.Packet.Codec.{has_related}
use smb_mem_lib.Conn.{Conn, receive}
use smb_mem_lib.Conn.Chain.{chain_size, encode_chain}
use smb_mem_lib.Conn.Chain.Marks.{IsResponse}
use smb_mem_lib.Conn.Chain.RoundTrip.{IsCutInto, receive-encode_chain}

-- The fields of compoundContext that sendPacket uses
pub record Pending : Type 0 where
  pub last_msg_id : ℕ
  pub last_status : ℕ
  pub rsp : List Slice

-- addResponse
abbrev add_response : Slice → Pending → Pending
add_response pkt ctx = record ctx { rsp = ctx.rsp ++ (pkt ∷ []) }

-- A packet with what its header says
pub record Answer : Type 0 where
  pub header : PacketHeader
  pub pkt : Slice

-- sendPacket: the message it writes, if any
pub send_packet : Answer → Pending → Option Slice × Pending
send_packet a ctx =
    let kept = add_response a.pkt (record ctx { last_status = a.header.status }) in
    if a.header.message_id == kept.last_msg_id
    then (some (encode_chain kept.rsp), kept)
    else (none, kept)

-- The messages that sendPacket writes for answers in their order
abbrev with_message : Option Slice → List Slice → List Slice
with_message none ms = ms
with_message (some m) ms = m ∷ ms

abbrev pub send_all : List Answer → Pending → List Slice
send_all [] ctx = []
send_all (a ∷ bs) ctx =
    let r = send_packet a ctx in let rest = send_all bs r.1 in with_message r.0 rest

abbrev packets : List Answer → List Slice
packets [] = []
packets (a ∷ bs) = a.pkt ∷ packets bs

module _ (z : Answer) where
  -- Only the answer to the last request writes a message.
  send_all-last :
      (bs : List Answer) (ctx : Pending)
      → All (λ a. (a.header.message_id == ctx.last_msg_id) ≡ false) bs
      → (z.header.message_id == ctx.last_msg_id) ≡ true
      → send_all (bs ++ (z ∷ [])) ctx ≡ encode_chain (ctx.rsp ++ packets (bs ++ (z ∷ []))) ∷ []
  unfolding send_packet
  send_all-last [] ctx h e = rw e refl
  send_all-last (a ∷ bs) ctx h e =
      let kept = add_response a.pkt (record ctx { last_status = a.header.status }) in
      rw
        (
          h.0,
          send_all-last bs kept h.1 e,
          append_assoc ctx.rsp (a.pkt ∷ []) (packets (bs ++ (z ∷ []))),
        )
        refl

  module _ (c : Conn) (e : Bool) where
    -- For answers `a` and `bs` with other message ids than lastMsgId, and then `z` with it, sendPacket
    -- with an empty context writes a single message, when it is called with `z`. If the packets have
    -- headers as encodeHeader writes them, at least 64 and fewer than 2 ^ 31 bytes and no NextCommand, and
    -- the first is not related, the loop of runReciever, where no session is in use, cuts this message
    -- into the packets of all answers, in their order: each as long as the packet rounded up to a
    -- multiple of 8, related if it is not the first, and with all the packet's bytes but for Flags and
    -- NextCommand.
    pub receive-send_all :
        (a : Answer) (bs : List Answer) (ctx : Pending)
        → All (λ b. (b.header.message_id == ctx.last_msg_id) ≡ false) (a ∷ bs)
        → (z.header.message_id == ctx.last_msg_id) ≡ true
        → ctx.rsp ≡ []
        → All IsResponse (packets (a ∷ (bs ++ (z ∷ []))))
        → has_related (uint32 16 a.pkt) ≡ false
        → (send_all (a ∷ (bs ++ (z ∷ []))) ctx ≡ encode_chain (packets (a ∷ (bs ++ (z ∷ [])))) ∷ [])
          × IsCutInto true (packets (a ∷ (bs ++ (z ∷ [])))) (
              receive
                (suc (suc (chain_size (packets (a ∷ (bs ++ (z ∷ [])))))))
                c
                false
                e
                []
                (encode_chain (packets (a ∷ (bs ++ (z ∷ []))))))
    receive-send_all a [] ctx h l fresh rs plain = (
      send_all-last (a ∷ []) ctx h l ∙ rw fresh refl,
      receive-encode_chain c e a.pkt z.pkt [] rs.0 plain rs.1,
    )
    receive-send_all a (b ∷ bs) ctx h l fresh rs plain = (
      send_all-last (a ∷ b ∷ bs) ctx h l ∙ rw fresh refl,
      receive-encode_chain c e a.pkt b.pkt (packets (bs ++ (z ∷ []))) rs.0 plain rs.1,
    )
