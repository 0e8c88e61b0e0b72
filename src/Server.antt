-- ===== src/Server.antt =====
-- server/server.go: the state of the server and of a connection, and what a handler leads to.
pub mod Acl
pub mod Answers
pub mod Crashes
pub mod Dialects
pub mod Effects
pub mod Files
pub mod Handshake
pub mod Login
pub mod Negotiation
pub mod Phases
pub mod Run
pub mod Setup
mod Tests
pub mod Trees
use smb_mem_lib.Prelude.{
  ℕ, ◌%◌, Bool, true, false, ◌&&◌, not, Option, none, some, List, [], ◌∷◌, Bytes, ◌==◌,
  if◌then◌else◌,
}
use smb_mem_lib.Prelude.Assoc.{Assoc}
use smb_mem_lib.Wire.{Slice}
use smb_mem_lib.Smb2.Packet.{PacketHeader, Stamp}
use smb_mem_lib.Smb2.Response.Negotiate.{NegotiateResponse}
use smb_mem_lib.Smb2.Response.SessionSetup.{SessionSetupResponse}
use smb_mem_lib.Smb2.Response.TreeConnect.{TreeConnectResponse}
use smb_mem_lib.Conn.{is_user}

-- The tokens of internal/spnego for the one authenticator of a server: whether it is NTLM, and the
-- decoders, which give whether the token names its mechanism, and the token inside.
pub record Mechanism : Type 0 where
  pub is_ntlm : Bool
  pub decode_init : Bytes → Option (Bool × Bytes)
  pub encode_challenge : Bytes → Option Bytes
  pub decode_resp : Bytes → Option (Bool × Bytes)
  pub accepted_token : Bytes
  pub init_token : Bytes

-- spnegoServer, of one authenticator: whether selectedMech is set.
pub record Spnego : Type 0 where
  pub selected : Bool

-- ServerNegotiator, which all connections of a server share; a nil Spnego is none.
pub record Negotiator : Type 0 where
  pub specified_dialect : ℕ
  pub spnego : Option Spnego

-- What a server has from its start on
pub record Server : Type 0 where
  pub mechanism : Mechanism
  pub require_message_signing : Bool
  pub allow_guest : Bool
  pub server_guid_low : ℕ
  pub server_guid_high : ℕ
  pub shares : List Bytes
  pub to_upper : Bytes → Bytes

-- ConnState
pub data ConnState : Type 0 where
  state_negotiate : ConnState
  state_session_setup : ConnState
  state_session_setup_challenge : ConnState
  state_session_active : ConnState

-- session; `has_signer` says that signer is not nil.
pub record Session : Type 0 where
  pub session_id : ℕ
  pub session_flags : ℕ
  pub has_signer : Bool

-- treeConn, of an ipcTree or of a fileTree
pub data TreeKind : Type 0 where
  ipc_tree : TreeKind
  file_tree : TreeKind

pub record Tree : Type 0 where
  pub kind : TreeKind
  pub session : Option Session
  pub tree_id : ℕ
  pub path : Bytes

-- conn
pub record Link : Type 0 where
  pub server_state : ConnState
  pub session : Option Session
  pub use_session : Bool
  pub dialect : ℕ
  pub require_signing : Bool
  pub capabilities : ℕ
  pub hash_id : ℕ
  pub preauth_hash_id : ℕ
  pub cipher_id : ℕ
  pub tree_map_by_name : Assoc Bytes Tree
  pub tree_map_by_id : Assoc ℕ Tree

-- A connection as Serve makes it
abbrev pub new_link : Link
new_link = record {
  server_state = state_negotiate;
  session = none;
  use_session = false;
  dialect = 0;
  require_signing = false;
  capabilities = 0;
  hash_id = 1;
  preauth_hash_id = 0;
  cipher_id = 2;
  tree_map_by_name = [];
  tree_map_by_id = [];
}

pub record Front : Type 0 where
  pub negotiator : Negotiator
  pub link : Link

-- After a request: Run goes on, Run has returned an error, or the process has ended by a panic. A request
-- that goes to the handlers of a tree is in `served`.
pub data Status : Type 0 where
  going : Status
  closed : Status
  crashed : Status

abbrev pub is_going : Status → Bool
is_going going = true
is_going s = false

-- What the surroundings decide while a request is handled: whether the transport takes the answer,
-- random numbers, the time, and the answers of the authenticator: a challenge to a token, and the user
-- that a token proves. `outcome` is what a handler of a tree ends with.
pub record Env : Type 0 where
  pub delivers : Bool
  pub fresh_id : ℕ
  pub fresh_session : ℕ
  pub salt : Bytes
  pub now : Stamp
  pub challenges : Bytes → Option Bytes
  pub accepts : Bytes → Option Bytes
  pub outcome : Status

-- A response with its header; the simple ones have no more fields.
pub data Body : Type 0 where
  negotiate_body : NegotiateResponse → Body
  session_setup_body : SessionSetupResponse → Body
  tree_connect_body : TreeConnectResponse → Body
  logoff_body : Body
  tree_disconnect_body : Body
  echo_body : Body
  error_body : Body

pub record Reply : Type 0 where
  pub header : PacketHeader
  pub body : Body

pub record Step : Type 0 where
  pub status : Status
  pub front : Front
  pub replies : List Reply
  pub served : List Tree

abbrev pub stop : Status → Front → Step
stop w f = record { status = w; front = f; replies = []; served = [] }

-- `s != nil && s.conn.useSession()` of encodePacket: the ids of the header; credits are left out.
abbrev pub session_header : Option Session → Bool → Option ℕ → PacketHeader → PacketHeader
session_header none used t h = h
session_header (some s) false t h = h
session_header (some s) true none h = record h { session_id = s.session_id }
session_header (some s) true (some i) h = record h { session_id = s.session_id; tree_id = i }

-- `s.sign(pkt)` of encodePacket, which uses the signer
abbrev pub sign_fails : Option Session → Bool
sign_fails none = false
sign_fails (some s) = is_user s.session_flags && not s.has_signer

-- sendPacket with no compound context, and `t` the id of the tree
abbrev pub send : Env → Option ℕ → PacketHeader → Body → Front → Step
send env t h b f =
    if sign_fails f.link.session
    then stop crashed f
    else if env.delivers
    then record {
      status = going;
      front = f;
      replies =
          record { header = session_header f.link.session f.link.use_session t h; body = b } ∷ [];
      served = [];
    }
    else stop closed f
