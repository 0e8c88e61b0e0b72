-- ===== src/Server/Phases/Handlers.antt =====
-- server/server.go: every handler makes a move of the login machine.
use smb_mem_lib.Prelude.{
  if_case, ℕ, ◌≡◌, refl, ◌∙◌, ap, sym, subst, Bool, true, false, Option, none, some, Bytes,
  if◌then◌else◌, arith,
}
use smb_mem_lib.Prelude.Assoc.{nat_key, bytes_key, load}
use smb_mem_lib.Wire.{Slice, uint32}
use smb_mem_lib.Smb2.Packet.{PacketHeader}
use smb_mem_lib.Server.{
  Server, Spnego, ConnState, state_negotiate, state_session_setup, state_session_setup_challenge,
  state_session_active, Session, Tree, TreeKind, Front, Env, Body, tree_connect_body,
  session_setup_body, error_body, tree_disconnect_body, sign_fails, send,
}
use smb_mem_lib.Server.Answers.{prepare_response, entry}
use smb_mem_lib.Server.Negotiation.{given_up}
use smb_mem_lib.Server.Setup.{
  Challenged, challenged, unchallenged, challenge_fell, challenge, Authenticated, passed, denied,
  auth_fell, authenticate, with_spnego, response_header, setup_challenged, session_server_setup,
  refuse, enable, new_session, activated, setup_authenticated, session_server_setup_challenge,
  in_state, session_setup,
}
use smb_mem_lib.Server.Trees.{
  share_response, with_tree, without_tree, connect_with, connect, disconnect_with, tree_disconnect,
}
use smb_mem_lib.Server.Run.{Request, tree_request}
use smb_mem_lib.Server.Effects.{with_token_case}
use smb_mem_lib.Server.Login.{proves, token_proves, is_login}
use smb_mem_lib.Server.Phases.{
  Phase, fresh, pending, logged_in, phase_of, phase, Move, begins, enters, restarts, SoundAt,
  IsSound, IsGood, IsNext, send-IsGood, never,
}

abbrev IsPassed : Authenticated → Type 0
IsPassed (passed out s) = Unit
IsPassed (denied s) = ⊥
IsPassed auth_fell = ⊥

-- What it takes for a token to be accepted
abbrev IsProved : Server → Env → Bytes → Authenticated → Type 0
IsProved srv env token (passed out s) = proves srv env token ≡ true
IsProved srv env token (denied s) = Unit
IsProved srv env token auth_fell = Unit

authenticate-IsProved :
    (srv : Server) (env : Env) (s : Option Spnego) (token : Bytes)
    → IsProved srv env token (authenticate srv env s token)
unfolding authenticate
authenticate-IsProved srv env none token = ground arith
authenticate-IsProved srv env (some s) token = ground arith

module _ (srv : Server) (env : Env) (b : Bool) (a : Phase) where
  setup_challenged-IsGood :
      (c : Challenged) (p : Slice) (f : Front)
      → f.link.session ≡ none
      → f.link.use_session ≡ false
      → Move b a pending
      → IsGood b a (setup_challenged c env p f)
  setup_challenged-IsGood (unchallenged s) p f h u m = never
  setup_challenged-IsGood challenge_fell p f h u m = never
  setup_challenged-IsGood (challenged token s) p f h u m =
      let g = with_spnego (some s) f in
      send-IsGood b a env none
        (record (response_header p) { status = 0xC0000016; session_id = env.fresh_session })
        (session_setup_body (record { session_flags = 0; security_buffer = token }))
        (record g { link = record g.link { server_state = state_session_setup_challenge } })
        ((h, u), m)

  session_server_setup-IsGood :
      (p : Slice) (f : Front)
      → f.link.session ≡ none
      → f.link.use_session ≡ false
      → Move b a pending
      → IsGood b a (session_server_setup srv env p f)
  unfolding session_server_setup
  session_server_setup-IsGood p f h u m =
      with_token_case (IsGood b a) f never never (entry 1 p) p _
        (λ token e. setup_challenged-IsGood (challenge srv env f.negotiator.spnego token) p f h u m)

  refuse-IsGood :
      (t : Option ℕ) (h : PacketHeader) (x : Body) (g : Front)
      → IsGood b a (refuse (send env t h x g))
  refuse-IsGood t h x g =
      if_case (λ y. IsGood b a (refuse y)) (sign_fails g.link.session) never
        (if_case (λ y. IsGood b a (refuse y)) env.delivers never never)

  enable-IsGood :
      (t : Option ℕ) (h : PacketHeader) (x : Body) (s : Session) (g : Front)
      → Move b a (logged_in s)
      → IsGood b a (enable (send env t h x (activated s g)))
  enable-IsGood t h x s g m =
      if_case (λ y. IsGood b a (enable y)) (sign_fails (some s)) never
        (if_case (λ y. IsGood b a (enable y)) env.delivers (λ e. (refl, m)) never)

  setup_authenticated-IsGood :
      (c : Authenticated) (p : Slice) (f : Front)
      → ((s : Session) → IsPassed c → Move b a (logged_in s))
      → IsGood b a (setup_authenticated c srv env p f)
  setup_authenticated-IsGood auth_fell p f k = never
  setup_authenticated-IsGood (denied s) p f k =
      refuse-IsGood none (prepare_response p 0xC0000022) error_body (with_spnego s f)
  setup_authenticated-IsGood (passed token s) p f k =
      let session = new_session srv f.link.dialect p in
      enable-IsGood none (record (response_header p) { session_id = session.session_id })
        (session_setup_body
          (record { session_flags = session.session_flags; security_buffer = token }))
        session (with_spnego (some s) f) (k session tt)

  session_server_setup_challenge-IsGood :
      (p : Slice) (f : Front)
      → (is_login srv env p ≡ b)
      → ((s : Session) → b ≡ true → Move b a (logged_in s))
      → IsGood b a (session_server_setup_challenge srv env p f)
  unfolding session_server_setup_challenge is_login
  session_server_setup_challenge-IsGood p f same k =
      with_token_case (IsGood b a) f never never (entry 1 p) p _ (λ token e.
        setup_authenticated-IsGood (authenticate srv env f.negotiator.spnego token) p f (λ s passes.
          k s (
            sym same
            ∙ (ap (λ d. token_proves d srv env) e
                ∙ proved token (authenticate srv env f.negotiator.spnego token)
                    (authenticate-IsProved srv env f.negotiator.spnego token) passes))))
    where
      proved :
          (token : Bytes) (c : Authenticated)
          → IsProved srv env token c
          → IsPassed c
          → proves srv env token ≡ true
      proved token (passed out s) h y = h
      proved token (denied s) h y = elim y [ ]
      proved token auth_fell h y = elim y [ ]

  pub connect-IsGood :
      (kind : TreeKind) (name : Bytes) (p : Slice) (f : Front)
      → IsNext b a f.link
      → IsGood b a (connect kind name env p f)
  unfolding connect
  connect-IsGood kind name p f next = connected (load name f.link.tree_map_by_name)
    where
      connected : (o : Option Tree) → IsGood b a (connect_with o kind name env p f)
      connected (some t) =
          send-IsGood b a env (some t.tree_id) (record (response_header p) { tree_id = t.tree_id })
            (tree_connect_body (share_response kind)) f next
      connected none =
          let t : Tree = record {
            kind = kind;
            session = f.link.session;
            tree_id = env.fresh_id;
            path = name;
          } in
          send-IsGood b a env (some env.fresh_id) (response_header p)
            (tree_connect_body (share_response kind)) (record f { link = with_tree t f.link }) next

  pub tree_disconnect-IsGood :
      (p : Slice) (f : Front) → IsNext b a f.link → IsGood b a (tree_disconnect env p f)
  unfolding tree_disconnect
  tree_disconnect-IsGood p f next = gone (load (uint32 36 p) f.link.tree_map_by_id)
    where
      gone : (o : Option Tree) → IsGood b a (disconnect_with o env p f)
      gone none = never
      gone (some t) =
          send-IsGood b a env (some t.tree_id) (response_header p) tree_disconnect_body
            (record f { link = without_tree t f.link }) next

tree_request-front :
    (o : Option Tree) (c : ℕ) (r : Request) (f : Front) → (tree_request o c r f).front ≡ f
tree_request-front none c r f = refl
tree_request-front (some t) c r f = ground arith

pub tree_request-IsGood :
    (b : Bool) (a : Phase) (o : Option Tree) (c : ℕ) (r : Request) (f : Front)
    → IsNext b a f.link
    → IsGood b a (tree_request o c r f)
tree_request-IsGood b a o c r f next e =
    subst (λ (g : Front). IsNext b a g.link) (sym (tree_request-front o c r f)) next

-- The states of a sound connection
in_state-IsGood :
    (srv : Server) (r : Request) (f : Front) (b : Bool) (s : ConnState) (o : Option Session)
    (u : Bool)
    → SoundAt s o u
    → is_login srv r.env r.pkt ≡ b
    → let l = record f.link { server_state = s; session = o; use_session = u } in
      let m = if l.use_session then given_up l else l in
      IsGood b (phase_of s o) (in_state m.server_state srv r.env r.pkt (record f { link = m }))
in_state-IsGood srv r f b state_negotiate none false h same =
    session_server_setup-IsGood srv r.env b fresh r.pkt
      (record f {
        link = record f.link {
          server_state = state_negotiate;
          session = none;
          use_session = false;
        };
      })
      refl refl (begins b)
in_state-IsGood srv r f b state_negotiate none true h same = never (sym h.1)
in_state-IsGood srv r f b state_negotiate (some s) u h same = never cc
in_state-IsGood srv r f b state_session_setup o u h same = elim h [ ]
in_state-IsGood srv r f b state_session_setup_challenge none false h same =
    session_server_setup_challenge-IsGood srv r.env b pending r.pkt
      (record f {
        link = record f.link {
          server_state = state_session_setup_challenge;
          session = none;
          use_session = false;
        };
      })
      same (λ s yes. subst (λ x. Move x pending (logged_in s)) (sym yes) (enters s))
in_state-IsGood srv r f b state_session_setup_challenge none true h same = never (sym h.1)
in_state-IsGood srv r f b state_session_setup_challenge (some s) u h same = never cc
in_state-IsGood srv r f b state_session_active none u h same = elim h [ ]
in_state-IsGood srv r f b state_session_active (some s) false h same = never h
in_state-IsGood srv r f b state_session_active (some s) true h same =
    session_server_setup-IsGood srv r.env b (logged_in s) r.pkt
      (record f { link = given_up f.link }) refl refl (restarts b s)

pub session_setup-IsGood :
    (srv : Server) (r : Request) (f : Front) (b : Bool)
    → IsSound f.link
    → is_login srv r.env r.pkt ≡ b
    → IsGood b (phase f.link) (session_setup srv r.env r.pkt f)
unfolding session_setup
session_setup-IsGood srv r f b h same =
    in_state-IsGood srv r f b f.link.server_state f.link.session f.link.use_session h same
