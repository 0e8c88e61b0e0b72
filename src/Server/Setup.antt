-- ===== src/Server/Setup.antt =====
-- server/server.go: sessionSetup with sessionServerSetup and sessionServerSetupChallenge, over the
-- challenge and authenticate of server/spnego.go.
use smb_mem_lib.Prelude.{
  ℕ, Bool, true, false, ◌||◌, Option, none, some, [], ◌∷◌, Bytes, bytes_eq, take, ◌==◌,
  if◌then◌else◌,
}
use smb_mem_lib.Wire.{Slice, from, uint16, uint64, Decoded, rejected, panicked, decoded}
use smb_mem_lib.Smb2.Packet.{PacketHeader}
use smb_mem_lib.Smb2.Request.SessionSetup
use smb_mem_lib.Conn.{message_id}
use smb_mem_lib.Server.{
  Server, Spnego, ConnState, state_negotiate, state_session_setup, state_session_setup_challenge,
  state_session_active, Session, Front, Env, session_setup_body, error_body, Status, going, closed,
  crashed, is_going, Step, stop, send,
}
use smb_mem_lib.Server.Answers.{no_header, prepare_response, Entry, entered, left, fell, entry}
use smb_mem_lib.Server.Negotiation.{given_up}

-- strings.HasPrefix(token, "NTLMSSP")
abbrev pub is_raw : Bytes → Bool
is_raw token = bytes_eq (take 7 token) (78 ∷ 84 ∷ 76 ∷ 77 ∷ 83 ∷ 83 ∷ 80 ∷ [])

-- What challenge leads to: the token of the answer, an error, or a panic
pub data Challenged : Type 0 where
  challenged : Bytes → Spnego → Challenged
  unchallenged : Option Spnego → Challenged
  challenge_fell : Challenged

abbrev pub of_challenge : (Bytes → Option Bytes) → Option Bytes → Spnego → Challenged
of_challenge enc none s = unchallenged (some s)
of_challenge enc (some t) s = elim (enc t) [
  | none ↦ unchallenged (some s)
  | some out ↦ challenged out s
]

-- A mechanism that is named is selected; an earlier choice stays.
abbrev pub select : Bool → Spnego → Spnego
select named s = record { selected = named || s.selected }

abbrev pub challenge_with : (Bytes → Option Bytes) → Env → Bytes → Spnego → Challenged
challenge_with enc env t s =
    if s.selected then of_challenge enc (env.challenges t) s else unchallenged (some s)

-- spnegoServer.challenge, on a nil receiver too
unfoldable pub challenge : Server → Env → Option Spnego → Bytes → Challenged
challenge srv env none token =
    if is_raw token then challenge_fell else elim (srv.mechanism.decode_init token) [
      | none ↦ unchallenged none
      | some d ↦ challenge_fell
    ]
challenge srv env (some s) token =
    if is_raw token
    then challenge_with (λ t. some t) env token (select srv.mechanism.is_ntlm s)
    else elim (srv.mechanism.decode_init token) [
      | none ↦ unchallenged (some s)
      | some d ↦ challenge_with srv.mechanism.encode_challenge env d.1 (select d.0 s)
    ]

-- What authenticate leads to
pub data Authenticated : Type 0 where
  passed : Bytes → Spnego → Authenticated
  denied : Option Spnego → Authenticated
  auth_fell : Authenticated

-- The call of selectedMech, which panics when it is nil
abbrev pub authenticate_with : Bytes → Env → Bytes → Spnego → Authenticated
authenticate_with out env t s =
    if s.selected
    then elim (env.accepts t) [ none ↦ denied (some s) | some user ↦ passed out s ]
    else auth_fell

-- spnegoServer.authenticate, on a nil receiver too
unfoldable pub authenticate : Server → Env → Option Spnego → Bytes → Authenticated
authenticate srv env none token =
    if is_raw token
    then auth_fell
    else elim (srv.mechanism.decode_resp token) [ none ↦ denied none | some d ↦ auth_fell ]
authenticate srv env (some s) token =
    if is_raw token
    then authenticate_with [] env token s
    else elim (srv.mechanism.decode_resp token) [
      | none ↦ denied (some s)
      | some d ↦ authenticate_with srv.mechanism.accepted_token env d.1 (select d.0 s)
    ]

-- accept, IsInvalid and SecurityBuffer, before what a handler does with the token
abbrev pub token_of : Decoded Bytes → (Bytes → Step) → Front → Step
token_of (decoded token) k f = k token
token_of rejected k f = stop crashed f
token_of panicked k f = stop crashed f

abbrev pub with_token : Entry → Slice → (Bytes → Step) → Front → Step
with_token left p k f = stop closed f
with_token fell p k f = stop crashed f
with_token entered p k f =
    if SessionSetup.is_invalid (from 64 p)
    then stop closed f
    else token_of (SessionSetup.security_buffer (from 64 p)) k f

-- The header that the handlers fill in
abbrev pub response_header : Slice → PacketHeader
response_header p = record no_header {
  credit_request_response = uint16 14 p;
  message_id = message_id p;
  flags = 1;
}

abbrev pub with_spnego : Option Spnego → Front → Front
with_spnego s f = record f { negotiator = record f.negotiator { spnego = s } }

abbrev pub setup_challenged : Challenged → Env → Slice → Front → Step
setup_challenged challenge_fell env p f = stop crashed f
setup_challenged (unchallenged s) env p f = stop closed (with_spnego s f)
setup_challenged (challenged token s) env p f =
    let g = with_spnego (some s) f in
    send env none
      (record (response_header p) { status = 0xC0000016; session_id = env.fresh_session })
      (session_setup_body (record { session_flags = 0; security_buffer = token }))
      (record g { link = record g.link { server_state = state_session_setup_challenge } })

-- sessionServerSetup
unfoldable pub session_server_setup : Server → Env → Slice → Front → Step
session_server_setup srv env p f =
    with_token (entry 1 p) p
      (λ token. setup_challenged (challenge srv env f.negotiator.spnego token) env p f) f

-- The dialects with a signer
abbrev pub has_keys : ℕ → Bool
has_keys d = d == 0x202 || (d == 0x210 || (d == 0x300 || (d == 0x302 || d == 0x311)))

-- The session of a user; a guest's has no keys.
abbrev pub new_session : Server → ℕ → Slice → Session
new_session srv dialect p = record {
  session_id = uint64 40 p;
  session_flags = if srv.allow_guest then 1 else 0;
  has_signer = if srv.allow_guest then false else has_keys dialect;
}

-- After sendPacket: an error closes the connection, and enableSession follows when there was none.
abbrev pub failing : Status → Status
failing going = closed
failing closed = closed
failing crashed = crashed

abbrev pub refuse : Step → Step
refuse t = record t { status = failing t.status }

abbrev pub enable : Step → Step
enable t =
    if is_going t.status
    then record t { front = record t.front { link = record t.front.link { use_session = true } } }
    else t

abbrev pub activated : Session → Front → Front
activated s f = record f {
  link = record f.link { session = some s; server_state = state_session_active };
}

abbrev pub setup_authenticated : Authenticated → Server → Env → Slice → Front → Step
setup_authenticated auth_fell srv env p f = stop crashed f
setup_authenticated (denied s) srv env p f =
    refuse (send env none (prepare_response p 0xC0000022) error_body (with_spnego s f))
setup_authenticated (passed token s) srv env p f =
    let session = new_session srv f.link.dialect p in
    enable (
      send env none (record (response_header p) { session_id = session.session_id })
        (session_setup_body
          (record { session_flags = session.session_flags; security_buffer = token }))
        (activated session (with_spnego (some s) f)))

-- sessionServerSetupChallenge
unfoldable pub session_server_setup_challenge : Server → Env → Slice → Front → Step
session_server_setup_challenge srv env p f =
    with_token (entry 1 p) p
      (λ token. setup_authenticated (authenticate srv env f.negotiator.spnego token) srv env p f) f

abbrev pub in_state : ConnState → Server → Env → Slice → Front → Step
in_state state_negotiate = session_server_setup
in_state state_session_setup = session_server_setup_challenge
in_state state_session_setup_challenge = session_server_setup_challenge
in_state state_session_active = λ srv env p f. stop closed f

-- conn.sessionSetup
unfoldable pub session_setup : Server → Env → Slice → Front → Step
session_setup srv env p f =
    let l = if f.link.use_session then given_up f.link else f.link in
    in_state l.server_state srv env p (record f { link = l })
