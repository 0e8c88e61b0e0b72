-- ===== src/Server/Login/Requests.antt =====
-- server/server.go: no request that carries no accepted token makes a session, or is served.
use smb_mem_lib.Prelude.{
  if_case, ℕ, ◌≡◌, refl, ◌∙◌, ap, sym, false, ◌||◌, Option, none, some, Bytes, ◌==◌, if◌then◌else◌,
  arith,
}
use smb_mem_lib.Prelude.Assoc.{nat_key, bytes_key, load, load-store, load-delete}
use smb_mem_lib.Wire.{Slice, uint32, Decoded, rejected, panicked, decoded}
use smb_mem_lib.Smb2.Packet.Codec.{command}
use smb_mem_lib.Server.{
  Server, Spnego, ConnState, state_negotiate, state_session_setup, state_session_setup_challenge,
  state_session_active, Tree, TreeKind, Link, Front, Env, tree_connect_body, tree_disconnect_body,
  echo_body, logoff_body,
}
use smb_mem_lib.Server.Answers.{entry}
use smb_mem_lib.Server.Negotiation.{given_up}
use smb_mem_lib.Server.Setup.{
  Challenged, challenged, unchallenged, challenge_fell, challenge, Authenticated, passed, denied,
  auth_fell, authenticate, response_header, setup_challenged, session_server_setup,
  setup_authenticated, session_server_setup_challenge, in_state, session_setup,
}
use smb_mem_lib.Server.Trees.{
  share_response, with_tree, without_tree, connect_with, connect, tree_connect, disconnect_with,
  tree_disconnect, echo, logoff,
}
use smb_mem_lib.Server.Run.{Request, serve, with_last, tree_request, dispatch, dispatch_of, handle}
use smb_mem_lib.Server.Effects.{with_token_case, tree_connect_case}
use smb_mem_lib.Server.Login.{
  IsAnonymous, IsQuiet, proves, token_proves, is_login, send-IsQuiet, negotiate-IsQuiet,
}

-- Not the answer to a proof
abbrev IsDenial : Authenticated → Type 0
IsDenial (passed token s) = ⊥
IsDenial (denied s) = Unit
IsDenial auth_fell = Unit

with_tree-IsAnonymous :
    (t : Tree) (l : Link) → t.session ≡ none → IsAnonymous l → IsAnonymous (with_tree t l)
with_tree-IsAnonymous t l h a =
    (a.0, λ k x e. ground (arith, load-store t.tree_id k t l.tree_map_by_id, a.1 k x, h))

without_tree-IsAnonymous : (t : Tree) (l : Link) → IsAnonymous l → IsAnonymous (without_tree t l)
without_tree-IsAnonymous t l a =
    (a.0, λ k x e. ground (arith, load-delete t.tree_id k l.tree_map_by_id, a.1 k x))

module _ (srv : Server) (env : Env) where
  authenticate-IsDenial :
      (s : Option Spnego) (token : Bytes)
      → proves srv env token ≡ false
      → IsDenial (authenticate srv env s token)
  unfolding authenticate
  authenticate-IsDenial none token h = ground arith
  authenticate-IsDenial (some s) token h = ground arith

  setup_challenged-IsQuiet :
      (c : Challenged) (p : Slice) (f : Front)
      → IsAnonymous f.link
      → IsQuiet (setup_challenged c env p f)
  setup_challenged-IsQuiet (challenged token s) p f a = ground (arith, a)
  setup_challenged-IsQuiet (unchallenged s) p f a = (a, refl)
  setup_challenged-IsQuiet challenge_fell p f a = (a, refl)

  setup_authenticated-IsQuiet :
      (c : Authenticated) (p : Slice) (f : Front)
      → IsDenial c
      → IsAnonymous f.link
      → IsQuiet (setup_authenticated c srv env p f)
  setup_authenticated-IsQuiet (passed token s) p f d a = elim d [ ]
  setup_authenticated-IsQuiet (denied s) p f d a = ground (arith, a)
  setup_authenticated-IsQuiet auth_fell p f d a = (a, refl)

  session_server_setup-IsQuiet :
      (p : Slice) (f : Front) → IsAnonymous f.link → IsQuiet (session_server_setup srv env p f)
  unfolding session_server_setup
  session_server_setup-IsQuiet p f a =
      with_token_case IsQuiet f (a, refl) (a, refl) (entry 1 p) p _
        (λ token h. setup_challenged-IsQuiet (challenge srv env f.negotiator.spnego token) p f a)

  session_server_setup_challenge-IsQuiet :
      (p : Slice) (f : Front)
      → is_login srv env p ≡ false
      → IsAnonymous f.link
      → IsQuiet (session_server_setup_challenge srv env p f)
  unfolding session_server_setup_challenge is_login
  session_server_setup_challenge-IsQuiet p f h a =
      with_token_case IsQuiet f (a, refl) (a, refl) (entry 1 p) p _
        (λ token e.
          setup_authenticated-IsQuiet (authenticate srv env f.negotiator.spnego token) p f
            (authenticate-IsDenial f.negotiator.spnego token
              (sym (ap (λ d. token_proves d srv env) e) ∙ h))
            a)

  in_state-IsQuiet :
      (s : ConnState) (p : Slice) (f : Front)
      → is_login srv env p ≡ false
      → IsAnonymous f.link
      → IsQuiet (in_state s srv env p f)
  in_state-IsQuiet state_negotiate p f h a = session_server_setup-IsQuiet p f a
  in_state-IsQuiet state_session_setup p f h a = session_server_setup_challenge-IsQuiet p f h a
  in_state-IsQuiet state_session_setup_challenge p f h a =
      session_server_setup_challenge-IsQuiet p f h a
  in_state-IsQuiet state_session_active p f h a = (a, refl)

  session_setup-IsQuiet :
      (p : Slice) (f : Front)
      → is_login srv env p ≡ false
      → IsAnonymous f.link
      → IsQuiet (session_setup srv env p f)
  unfolding session_setup
  session_setup-IsQuiet p f h a =
      let l = if f.link.use_session then given_up f.link else f.link in
      in_state-IsQuiet l.server_state p (record f { link = l }) h
        (if_case IsAnonymous _ (refl, a.1) a)

  connect-IsQuiet :
      (kind : TreeKind) (name : Bytes) (p : Slice) (f : Front)
      → IsAnonymous f.link
      → IsQuiet (connect kind name env p f)
  unfolding connect
  connect-IsQuiet kind name p f a = connected (load name f.link.tree_map_by_name)
    where
      connected : (o : Option Tree) → IsQuiet (connect_with o kind name env p f)
      connected (some t) = ground (arith, a)
      connected none =
          let t : Tree = record {
            kind = kind;
            session = f.link.session;
            tree_id = env.fresh_id;
            path = name;
          } in
          send-IsQuiet env (some env.fresh_id) (response_header p)
            (tree_connect_body (share_response kind)) (record f { link = with_tree t f.link })
            (with_tree-IsAnonymous t f.link a.0 a)

  tree_connect-IsQuiet :
      (p : Slice) (f : Front) → IsAnonymous f.link → IsQuiet (tree_connect srv env p f)
  tree_connect-IsQuiet p f a =
      tree_connect_case IsQuiet f (a, refl) (a, refl) srv env p
        (λ kind name. connect-IsQuiet kind name p f a)

  tree_disconnect-IsQuiet :
      (p : Slice) (f : Front) → IsAnonymous f.link → IsQuiet (tree_disconnect env p f)
  unfolding tree_disconnect
  tree_disconnect-IsQuiet p f a = gone (load (uint32 36 p) f.link.tree_map_by_id)
    where
      gone : (o : Option Tree) → IsQuiet (disconnect_with o env p f)
      gone none = (a, refl)
      gone (some t) =
          send-IsQuiet env (some t.tree_id) (response_header p) tree_disconnect_body
            (record f { link = without_tree t f.link }) (without_tree-IsAnonymous t f.link a)

-- A tree without a session serves nothing.
serve-IsQuiet :
    (t : Tree) (c : ℕ) (r : Request) (f : Front)
    → t.session ≡ none
    → IsAnonymous f.link
    → IsQuiet (serve t c r f)
serve-IsQuiet t c r f h a = ground (arith, a, h)

tree_request-IsQuiet :
    (o : Option Tree) (c : ℕ) (r : Request) (f : Front)
    → ((t : Tree) → o ≡ some t → t.session ≡ none)
    → IsAnonymous f.link
    → IsQuiet (tree_request o c r f)
tree_request-IsQuiet none c r f h a = (a, refl)
tree_request-IsQuiet (some t) c r f h a = after r.last_status
  where
    after : (o : Option ℕ) → IsQuiet (with_last o t c r f)
    after none = serve-IsQuiet t c r f (h t refl) a
    after (some status) =
        if_case IsQuiet (status == 0) (serve-IsQuiet t c r f (h t refl) a) (ground (arith, a))

dispatch-IsQuiet :
    (srv : Server) (c : ℕ) (r : Request) (f : Front)
    → is_login srv r.env r.pkt ≡ false
    → IsAnonymous f.link
    → IsQuiet (dispatch srv c r f)
unfolding dispatch echo logoff
dispatch-IsQuiet srv c r f h a =
    if_case IsQuiet (c == 0 || c == 0x72) (negotiate-IsQuiet srv r.env r.pkt f a) (
      if_case IsQuiet (c == 1) (session_setup-IsQuiet srv r.env r.pkt f h a) (
        if_case IsQuiet (c == 2) (send-IsQuiet r.env none (response_header r.pkt) logoff_body f a) (
          if_case IsQuiet (c == 3) (tree_connect-IsQuiet srv r.env r.pkt f a) (
            if_case IsQuiet (c == 4) (tree_disconnect-IsQuiet srv r.env r.pkt f a) (
              if_case IsQuiet (c == 13)
                (send-IsQuiet r.env none (response_header r.pkt) echo_body f a)
                (tree_request-IsQuiet (load (uint32 36 r.pkt) f.link.tree_map_by_id) c r f
                  (a.1 (uint32 36 r.pkt)) a))))))

-- A request that carries no accepted token
pub handle-IsQuiet :
    (srv : Server) (r : Request) (f : Front)
    → is_login srv r.env r.pkt ≡ false
    → IsAnonymous f.link
    → IsQuiet (handle srv r f)
unfolding handle
handle-IsQuiet srv r f h a = after (command r.pkt)
  where
    after : (d : Decoded ℕ) → IsQuiet (dispatch_of d srv r f)
    after rejected = (a, refl)
    after panicked = (a, refl)
    after (decoded c) = dispatch-IsQuiet srv c r f h a
