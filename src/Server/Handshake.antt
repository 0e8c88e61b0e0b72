-- ===== src/Server/Handshake.antt =====
-- server/server.go: a client with a token that lets it in gets its session.
use smb_mem_lib.Prelude.{◌≡◌, refl, ◌∙◌, Bool, true, false, ◌||◌, none, some, Bytes, arith}
use smb_mem_lib.Wire.{Slice, from, decoded}
use smb_mem_lib.Smb2.Packet.Codec.{command}
use smb_mem_lib.Smb2.Request.SessionSetup
use smb_mem_lib.Server.{
  Server, Spnego, Session, state_negotiate, state_session_setup_challenge, Front, Env, going, Step,
}
use smb_mem_lib.Server.Answers.{entered, entry}
use smb_mem_lib.Server.Setup.{
  is_raw, challenge, authenticate, setup_challenged, session_server_setup,
  session_server_setup_challenge, setup_authenticated, has_keys, new_session, session_setup,
  challenged, passed,
}
use smb_mem_lib.Server.Run.{Request, handle, dispatch}

-- A SESSION_SETUP request that is read to a token
abbrev pub IsSetup : Slice → Bytes → Type 0
IsSetup p token =
    (command p ≡ decoded 1)
    × (entry 1 p ≡ entered)
    × (SessionSetup.is_invalid (from 64 p) ≡ false)
    × (SessionSetup.security_buffer (from 64 p) ≡ decoded token)

-- A token of spnego that starts a login with the mechanism of the server, and that it answers
abbrev pub IsOpening : Server → Env → Bytes → Bytes → Bytes → Bytes → Type 0
IsOpening srv env token inner reply out =
    (is_raw token ≡ false)
    × (srv.mechanism.decode_init token ≡ some (true, inner))
    × (env.challenges inner ≡ some reply)
    × (srv.mechanism.encode_challenge reply ≡ some out)

abbrev pub IsProof : Server → Env → Bytes → Bytes → Bytes → Type 0
IsProof srv env token inner user =
    (is_raw token ≡ false)
    × ((named : Bool) × (srv.mechanism.decode_resp token ≡ some (named, inner)))
    × (env.accepts inner ≡ some user)

challenge-IsOpening :
    (srv : Server) (env : Env) (s : Spnego) (token inner reply out : Bytes)
    → IsOpening srv env token inner reply out
    → challenge srv env (some s) token ≡ challenged out (record { selected = true })
unfolding challenge
challenge-IsOpening srv env s token inner reply out h = ground (arith, h)

authenticate-IsProof :
    (srv : Server) (env : Env) (token inner user : Bytes)
    → IsProof srv env token inner user
    → authenticate srv env (some (record { selected = true })) token
      ≡ passed srv.mechanism.accepted_token (record { selected = true })
unfolding authenticate
authenticate-IsProof srv env token inner user h = ground (arith, h)

-- A SESSION_SETUP request goes to the handler of the state.
pub handle_setup :
    (srv : Server) (r : Request) (f : Front) (token : Bytes)
    → IsSetup r.pkt token
    → handle srv r f ≡ session_setup srv r.env r.pkt f
unfolding handle dispatch
handle_setup srv r f token h = rw h.0 refl

-- The request that opens a login, on a connection without a session
opening_step :
    (srv : Server) (env : Env) (p : Slice) (f : Front) (s : Spnego) (token inner reply out : Bytes)
    → IsSetup p token
    → f.negotiator.spnego ≡ some s
    → f.link.server_state ≡ state_negotiate
    → f.link.use_session ≡ false
    → IsOpening srv env token inner reply out
    → session_setup srv env p f
      ≡ setup_challenged (challenged out (record { selected = true })) env p f
unfolding session_setup session_server_setup
opening_step srv env p f s token inner reply out i n st u o =
    rw (u, st, i.1, i.2, i.3, n, challenge-IsOpening srv env s token inner reply out o) refl

proof_step :
    (srv : Server) (env : Env) (p : Slice) (f : Front) (token inner user : Bytes)
    → IsSetup p token
    → f.negotiator.spnego ≡ some (record { selected = true })
    → f.link.server_state ≡ state_session_setup_challenge
    → f.link.use_session ≡ false
    → IsProof srv env token inner user
    → session_setup srv env p f
      ≡ setup_authenticated
          (passed srv.mechanism.accepted_token (record { selected = true }))
          srv
          env
          p
          f
unfolding session_setup session_server_setup_challenge
proof_step srv env p f token inner user i n st u o =
    rw (u, st, i.1, i.2, i.3, n, authenticate-IsProof srv env token inner user o) refl

-- A step after which the connection goes on with a session in use
abbrev pub IsLoggedIn : Session → Step → Type 0
IsLoggedIn s t =
    (t.status ≡ going) × (t.front.link.session ≡ some s) × (t.front.link.use_session ≡ true)

-- A client that opens a login and then proves who it is, on a connection without a session, where the
-- server has keys for its dialect or lets guests in, and the transport takes both answers: the
-- connection goes on, with the session in use.
pub login_succeeds :
    (srv : Server) (r1 r2 : Request) (f : Front) (s : Spnego) (t1 i1 reply out t2 i2 user : Bytes)
    → IsSetup r1.pkt t1
    → IsSetup r2.pkt t2
    → f.negotiator.spnego ≡ some s
    → (f.link.server_state ≡ state_negotiate)
      × (f.link.session ≡ none)
      × (f.link.use_session ≡ false)
    → IsOpening srv r1.env t1 i1 reply out
    → IsProof srv r2.env t2 i2 user
    → (r1.env.delivers ≡ true) × (r2.env.delivers ≡ true)
    → (srv.allow_guest || has_keys f.link.dialect) ≡ true
    → ((handle srv r1 f).status ≡ going)
      × IsLoggedIn (new_session srv f.link.dialect r2.pkt) (handle srv r2 (handle srv r1 f).front)
login_succeeds srv r1 r2 f s t1 i1 reply out t2 i2 user p1 p2 n l o q d k =
    let first : handle srv r1 f
        ≡ setup_challenged (challenged out (record { selected = true })) r1.env r1.pkt f =
      handle_setup srv r1 f t1 p1
      ∙ opening_step srv r1.env r1.pkt f s t1 i1 reply out p1 n l.0 l.2 o in
    let mid : Front = record {
      negotiator = record f.negotiator { spnego = some (record { selected = true }) };
      link = record f.link { server_state = state_session_setup_challenge };
    } in
    let went : ((handle srv r1 f).status ≡ going) × ((handle srv r1 f).front ≡ mid) =
      rw first (ground (arith, l, d)) in
    let second : handle srv r2 mid
        ≡ setup_authenticated (passed srv.mechanism.accepted_token (record { selected = true })) srv
            r2.env r2.pkt mid =
      handle_setup srv r2 mid t2 p2
      ∙ proof_step srv r2.env r2.pkt mid t2 i2 user p2 refl refl l.2 q in
    let last : IsLoggedIn (new_session srv f.link.dialect r2.pkt)
        (handle srv r2 (handle srv r1 f).front) =
      rw (went.1, second) (ground (arith, l, d, k)) in
    (went.0, last)
