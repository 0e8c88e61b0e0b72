-- ===== src/Server/Login.antt =====
-- server/server.go: what a connection can do before a client has proved who it is.
pub mod Requests
pub mod Worlds
use smb_mem_lib.Prelude.{
  if_case, ℕ, zero, suc, ◌≡◌, refl, ◌∙◌, ap, sym, not, drop, length, ltb, ◌+◌, ◌%◌, ◌^◌, Bool, true,
  false, ◌&&◌, Option, none, some, List, [], ◌∷◌, Bytes, ◌==◌, if◌then◌else◌, arith,
}
use smb_mem_lib.Prelude.Assoc.{
  Assoc, nat_key, bytes_key, load, store, delete, load-store, load-delete,
}
use smb_mem_lib.Wire.{
  Slice, from, uint16, uint32, roundup8, slice, Decoded, rejected, panicked, decoded,
}
use smb_mem_lib.Smb2.Packet.{PacketHeader}
use smb_mem_lib.Smb2.Packet.Codec.{is_smb1}
use smb_mem_lib.Smb2.Request.Negotiate
use smb_mem_lib.Smb2.Request.Negotiate.{NegotiateRequestView, negotiate_context_list}
use smb_mem_lib.Conn.Accept.{of_bytes}
use smb_mem_lib.Smb2.Request.SessionSetup
use smb_mem_lib.Server.Setup.{is_raw}
use smb_mem_lib.Server.{
  Server, Spnego, Tree, TreeKind, Link, Front, Env, Body, Status, Step, stop, send,
}
use smb_mem_lib.Server.Negotiation.{is_negotiating, reset, negotiate}
use smb_mem_lib.Server.Effects.{IsSame, Leads, stops, sends, negotiate-Leads}

-- A connection without a session, all of whose trees have none
abbrev pub IsAnonymous : Link → Type 0
IsAnonymous l =
    (l.session ≡ none) × ((k : ℕ) (t : Tree) → load k l.tree_map_by_id ≡ some t → t.session ≡ none)

-- A step that leaves it so and serves no request
abbrev pub IsQuiet : Step → Type 0
IsQuiet t = IsAnonymous t.front.link × (t.served ≡ [])

-- A user whom the authenticator lets in with the token of a SESSION_SETUP request: a raw NTLM token, or one
-- within a token of spnego
abbrev is_user_of : Option Bytes → Bool
is_user_of none = false
is_user_of (some user) = true

abbrev pub proves : Server → Env → Bytes → Bool
proves srv env token =
    if is_raw token
    then is_user_of (env.accepts token)
    else elim (srv.mechanism.decode_resp token) [
      | none ↦ false
      | some d ↦ is_user_of (env.accepts d.1)
    ]

abbrev pub token_proves : Decoded Bytes → Server → Env → Bool
token_proves (decoded token) srv env = proves srv env token
token_proves rejected srv env = false
token_proves panicked srv env = false

-- Whether a request carries a token that lets a user in
unfoldable pub is_login : Server → Env → Slice → Bool
is_login srv env p = token_proves (SessionSetup.security_buffer (from 64 p)) srv env

pub send-IsQuiet :
    (env : Env) (t : Option ℕ) (h : PacketHeader) (b : Body) (f : Front)
    → IsAnonymous f.link
    → IsQuiet (send env t h b f)
send-IsQuiet env t h b f a = ground (arith, a)

IsSame-IsAnonymous : (l m : Link) → IsSame l m → IsAnonymous l → IsAnonymous m
IsSame-IsAnonymous l m same a = (same.0 ∙ a.0, λ k t e. a.1 k t (ap (load k) (sym same.4) ∙ e))

Leads-IsQuiet : (env : Env) (l : Link) (t : Step) → IsAnonymous l → Leads env l t → IsQuiet t
Leads-IsQuiet env l _ a (stops w g h same) = (IsSame-IsAnonymous l g.link same a, refl)
Leads-IsQuiet env l _ a (sends t h b g same) =
    send-IsQuiet env t h b g (IsSame-IsAnonymous l g.link same a)

pub negotiate-IsQuiet :
    (srv : Server) (env : Env) (p : Slice) (f : Front)
    → IsAnonymous f.link
    → IsQuiet (negotiate srv env p f)
negotiate-IsQuiet srv env p f a =
    Leads-IsQuiet env (reset f.link) _
      (if_case IsAnonymous (not (is_negotiating f.link.server_state) && f.link.use_session)
        (refl, a.1) a)
      (negotiate-Leads srv env p f)
