-- ===== src/Server/Crashes/Shared.antt =====
-- server/server.go: the connections of a server share its ServerNegotiator.
use smb_mem_lib.Prelude.{
  if_case, ◌≡◌, refl, sym, ap, true, false, Option, none, some, List, Bytes, ◌==◌, arith,
}
use smb_mem_lib.Wire.{Slice, from, Decoded, rejected, panicked, decoded}
use smb_mem_lib.Smb2.Packet.{PacketHeader}
use smb_mem_lib.Smb2.Packet.Codec.{command, is_smb1}
use smb_mem_lib.Smb2.Request.Negotiate
use smb_mem_lib.Smb2.Request.Negotiate.{NegotiateRequestView, negotiate_context_list}
use smb_mem_lib.Server.{
  Server, state_session_setup_challenge, Link, Front, Env, crashed, is_going, Step,
}
use smb_mem_lib.Server.Answers.{
  prepare_response, Entry, entered, left, fell, entry, answer, answer_with, contexts_for,
}
use smb_mem_lib.Server.Negotiation.{
  Handled, handled, erred, died, answer_contexts, handle_list, settled, choose_dialect,
  negotiate_with, negotiate_entered, reset, negotiate,
}
use smb_mem_lib.Server.Setup.{is_raw, authenticate, session_server_setup_challenge, session_setup}
use smb_mem_lib.Server.Run.{Request, handle, dispatch}
use smb_mem_lib.Server.Handshake.{IsSetup, handle_setup}
use smb_mem_lib.Server.Phases.{never}

module _ (srv : Server) (env : Env) where
  answer-negotiator :
      (h : PacketHeader) (token : Bytes) (f : Front)
      → (answer srv env h token f).front.negotiator ≡ f.negotiator
  unfolding answer
  answer-negotiator h token f =
      answered_with (contexts_for env f.link f.negotiator.specified_dialect)
    where
      answered_with :
          (cs : Option (List Bytes))
          → (answer_with cs srv env h token f).front.negotiator ≡ f.negotiator
      answered_with none = refl
      answered_with (some cs) = ground arith

  answer_contexts-negotiator :
      (c : Handled) (h : PacketHeader) (token : Bytes) (f : Front)
      → (answer_contexts c srv env h token f).front.negotiator ≡ f.negotiator
  answer_contexts-negotiator (handled l) h token f =
      answer-negotiator h token (record f { link = l })
  answer_contexts-negotiator erred h token f = refl
  answer_contexts-negotiator died h token f = refl

  -- A NEGOTIATE request that is answered leaves a new spnegoServer, which has selected nothing.
  negotiate_entered-spnego :
      (e : Entry) (p : Slice) (f : Front)
      → is_going (negotiate_entered e srv env p f).status ≡ true
      → (negotiate_entered e srv env p f).front.negotiator.spnego
        ≡ some (record { selected = false })
  negotiate_entered-spnego left p f g = never g
  negotiate_entered-spnego fell p f g = never g
  negotiate_entered-spnego entered p f g = after (Negotiate.decode (from 64 p)) g
    where
      after :
          (d : Decoded NegotiateRequestView)
          → is_going (negotiate_with d srv env p f).status ≡ true
          → (negotiate_with d srv env p f).front.negotiator.spnego
            ≡ some (record { selected = false })
      after rejected g = never g
      after panicked g = never g
      after (decoded r) g =
          let now = settled srv r f in
          if_case (λ (t : Step). t.front.negotiator.spnego ≡ some (record { selected = false }))
            (choose_dialect r.dialects == 0x311)
            (ap (λ n. n.spnego)
              (answer_contexts-negotiator
                (handle_list r.negotiate_context_count (negotiate_context_list (from 64 p))
                  now.link)
                (prepare_response p 0) srv.mechanism.init_token now))
            (ap (λ n. n.spnego)
              (answer-negotiator (prepare_response p 0) srv.mechanism.init_token now))

  negotiate-spnego :
      (p : Slice) (f : Front)
      → is_smb1 p ≡ decoded false
      → is_going (negotiate srv env p f).status ≡ true
      → (negotiate srv env p f).front.negotiator.spnego ≡ some (record { selected = false })
  unfolding negotiate
  negotiate-spnego p f s =
      rw s (negotiate_entered-spnego (entry 0 p) p (record f { link = reset f.link }))

handle_negotiate :
    (srv : Server) (r : Request) (f : Front)
    → command r.pkt ≡ decoded 0
    → handle srv r f ≡ negotiate srv r.env r.pkt f
unfolding handle dispatch
handle_negotiate srv r f c = rw c refl

-- The call of selectedMech, which is nil
unselected_crashes :
    (srv : Server) (r : Request) (g : Front) (token : Bytes)
    → g.negotiator.spnego ≡ some (record { selected = false })
    → (g.link.server_state ≡ state_session_setup_challenge) × (g.link.use_session ≡ false)
    → IsSetup r.pkt token
    → is_raw token ≡ true
    → (handle srv r g).status ≡ crashed
unfolding session_setup session_server_setup_challenge authenticate
unselected_crashes srv r g token n s i raw =
    rw (handle_setup srv r g token i, s.1, s.0, i.1, i.2, i.3, n, raw) refl

-- While a client is between its two SESSION_SETUP requests, the NEGOTIATE request of another connection
-- is answered: a raw NTLM token in the second request then ends the process.
pub negotiate_breaks_login :
    (srv : Server) (r1 r2 : Request) (f : Front) (l : Link) (token : Bytes)
    → (is_smb1 r1.pkt ≡ decoded false) × (command r1.pkt ≡ decoded 0)
    → is_going (handle srv r1 f).status ≡ true
    → (l.server_state ≡ state_session_setup_challenge) × (l.use_session ≡ false)
    → IsSetup r2.pkt token
    → is_raw token ≡ true
    → (handle srv r2 (record { negotiator = (handle srv r1 f).front.negotiator; link = l })).status
      ≡ crashed
negotiate_breaks_login srv r1 r2 f l token i g s j raw =
    let same = handle_negotiate srv r1 f i.1 in
    unselected_crashes srv r2 (record { negotiator = (handle srv r1 f).front.negotiator; link = l })
      token (rw same (negotiate-spnego srv r1.env r1.pkt f i.0 (rw (sym same) g))) s j raw
