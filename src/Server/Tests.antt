-- ===== src/Server/Tests.antt =====
-- Runs of the server's handlers at concrete requests.
use smb_mem_lib.Prelude.{
  ℕ, ◌≡◌, ◌⊎◌, inl, refl, All, true, false, none, some, List, [], ◌∷◌, ◌++◌, Bytes, bytes_eq,
  length, if◌then◌else◌,
}
use smb_mem_lib.Prelude.Assoc.{load, store}
use smb_mem_lib.Wire.{Slice, slice, rest_of}
use smb_mem_lib.Conn.Accept.{of_bytes, accept}
use smb_mem_lib.Smb2.Packet.Codec.{command, is_smb1}
use smb_mem_lib.Smb2.Request.SessionSetup
use smb_mem_lib.Smb2.Request.TreeConnect
use smb_mem_lib.Smb2.Request.Negotiate
use smb_mem_lib.SmbPath
use smb_mem_lib.Server.{
  Server, Env, Front, Link, going, crashed, new_link, state_session_setup_challenge,
}
use smb_mem_lib.Server.Answers.{entry, answer}
use smb_mem_lib.Server.Negotiation.{choose_dialect, negotiate}
use smb_mem_lib.Server.Setup.{
  challenge, authenticate, session_setup, session_server_setup, session_server_setup_challenge,
  new_session,
}
use smb_mem_lib.Server.Trees.{tree_connect, connect}
use smb_mem_lib.Server.Run.{Request, Event, handle, dispatch, new_world, world_step, run}
use smb_mem_lib.Server.Handshake.{IsLoggedIn, login_succeeds}
use smb_mem_lib.Server.Login.{is_login}
use smb_mem_lib.Server.Login.Worlds.{served_to, stranger_is_not_served}
use smb_mem_lib.Server.Phases.{fresh, phase, Move, IsSound}
use smb_mem_lib.Server.Phases.Worlds.{Follows, mark_all, handle_refines, run_refines}
use smb_mem_lib.Server.Dialects.{eligible, IsBest, choose_dialect_lem}
use smb_mem_lib.Server.Crashes.{is_crashed, anonymous_file_command_crashes, unknown_dialect_crashes}
use smb_mem_lib.Server.Crashes.Shared.{negotiate_breaks_login}

abbrev zeros : Bytes
zeros = 0 ∷ 0 ∷ 0 ∷ 0 ∷ 0 ∷ 0 ∷ 0 ∷ 0 ∷ []

-- A request of a command, on a tree, with its body
abbrev packet : ℕ → ℕ → Bytes → Slice
packet cmd tree body = of_bytes (
    (0xFE ∷ 0x53 ∷ 0x4D ∷ 0x42 ∷ 64 ∷ 0 ∷ 0 ∷ 0 ∷ 0 ∷ 0 ∷ 0 ∷ 0 ∷ cmd ∷ 0 ∷ 1 ∷ 0 ∷ [])
    ++ (zeros ++ (zeros ++ (0 ∷ 0 ∷ 0 ∷ 0 ∷ tree ∷ 0 ∷ 0 ∷ 0 ∷ [])))
    ++ (7 ∷ 0 ∷ 0 ∷ 0 ∷ 0 ∷ 0 ∷ 0 ∷ 0 ∷ [])
    ++ (zeros ++ (zeros ++ body)))

abbrev setup : Bytes → Slice
setup token = packet 1 0 (
    (25 ∷ 0 ∷ 0 ∷ 1 ∷ 0 ∷ 0 ∷ 0 ∷ 0 ∷ 0 ∷ 0 ∷ 0 ∷ 0 ∷ 88 ∷ 0 ∷ length token ∷ 0 ∷ [])
    ++ (zeros ++ token))

abbrev srv : Server
srv = record {
  mechanism = record {
    is_ntlm = true;
    decode_init = λ t. some (true, t);
    encode_challenge = λ t. some t;
    decode_resp = λ t. some (false, t);
    accepted_token = [];
    init_token = [];
  };
  require_message_signing = false;
  allow_guest = true;
  server_guid_low = 0;
  server_guid_high = 0;
  shares = (83 ∷ []) ∷ [];
  to_upper = λ s. s;
}

abbrev env : Env
env = record {
  delivers = true;
  fresh_id = 5;
  fresh_session = 7;
  salt = [];
  now = record { low = 0; high = 0 };
  challenges = λ t. some (3 ∷ []);
  accepts = λ t. if bytes_eq t (2 ∷ []) then some (65 ∷ []) else none;
  outcome = going;
}

abbrev asks : Slice → Request
asks p = record { env = env; pkt = p; last_status = none }

abbrev start : Front
start = record {
  negotiator = record { specified_dialect = 0x302; spnego = some (record { selected = false }) };
  link = new_link;
}

abbrev negotiate_for : ℕ → ℕ → Slice
negotiate_for low high = packet 0 0 (
    (36 ∷ 0 ∷ 1 ∷ 0 ∷ 1 ∷ 0 ∷ 0 ∷ 0 ∷ [])
    ++ (zeros ++ (zeros ++ (zeros ++ (0 ∷ 0 ∷ 0 ∷ 0 ∷ low ∷ high ∷ [])))))

-- TREE_CONNECT to "\\a\\S", and READ on tree 5
abbrev connects : Slice
connects = packet 3 0 (9 ∷ 0 ∷ 0 ∷ 0 ∷ 72 ∷ 0 ∷ 8 ∷ 0 ∷ 92 ∷ 0 ∷ 97 ∷ 0 ∷ 92 ∷ 0 ∷ 83 ∷ 0 ∷ [])

abbrev reads : Slice
reads = packet 8 5 []

-- One client logs in while another tries to read.
abbrev events : List Event
events =
    record { conn = 0; request = asks (negotiate_for 2 3) }
    ∷ record { conn = 0; request = asks (setup (1 ∷ [])) }
    ∷ record { conn = 1; request = asks connects }
    ∷ record { conn = 0; request = asks (setup (2 ∷ [])) }
    ∷ record { conn = 0; request = asks connects }
    ∷ record { conn = 0; request = asks reads }
    ∷ []

abbrev raw_token : Bytes
raw_token = 78 ∷ 84 ∷ 76 ∷ 77 ∷ 83 ∷ 83 ∷ 80 ∷ 0 ∷ []

abbrev challenged_link : Link
challenged_link = record new_link { server_state = state_session_setup_challenge }

login_succeeds_example :
    ((handle srv (asks (setup (1 ∷ []))) start).status ≡ going)
    × IsLoggedIn
        (new_session srv 0 (setup (2 ∷ [])))
        (handle srv (asks (setup (2 ∷ []))) (handle srv (asks (setup (1 ∷ []))) start).front)
unfolding command is_smb1 entry accept rest_of slice SessionSetup.is_invalid
    SessionSetup.security_buffer bytes_eq
login_succeeds_example =
    login_succeeds srv (asks (setup (1 ∷ []))) (asks (setup (2 ∷ []))) start
      (record { selected = false }) (1 ∷ []) (1 ∷ []) (3 ∷ []) (3 ∷ []) (2 ∷ []) (2 ∷ []) (65 ∷ [])
      (refl, refl, refl, refl) (refl, refl, refl, refl) refl (refl, refl, refl)
      (refl, refl, refl, refl) (refl, (false, refl), refl) (refl, refl) refl

handle_refines_example :
    IsSound (handle srv (asks (setup (1 ∷ []))) start).front.link
    × Move
        (is_login srv env (setup (1 ∷ [])))
        fresh
        (phase (handle srv (asks (setup (1 ∷ []))) start).front.link)
unfolding handle dispatch session_setup session_server_setup challenge command is_smb1 entry accept
    rest_of slice SessionSetup.is_invalid SessionSetup.security_buffer bytes_eq
handle_refines_example = handle_refines srv (asks (setup (1 ∷ []))) start (refl, refl) refl

run_refines_example :
    IsSound ((run srv events new_world).links 0)
    × Follows fresh (mark_all srv events (λ j. []) 0) (phase ((run srv events new_world).links 0))
unfolding run world_step handle dispatch session_setup session_server_setup
    session_server_setup_challenge challenge authenticate negotiate Negotiate.decode answer
    choose_dialect tree_connect connect command is_smb1 entry accept rest_of slice load
    SessionSetup.is_invalid SessionSetup.security_buffer TreeConnect.is_invalid TreeConnect.path
    SmbPath.split Negotiate.is_invalid Negotiate.dialects bytes_eq store
run_refines_example = run_refines srv events 0 refl

stranger_is_not_served_example :
    (((run srv events new_world).links 1).session ≡ none)
    × (served_to 1 (run srv events new_world).log ≡ [])
unfolding is_login slice SessionSetup.security_buffer
stranger_is_not_served_example =
    stranger_is_not_served srv 1 events (refl, (refl, (refl, (refl, (refl, (refl, tt))))))

choose_dialect_lem_example :
    IsBest (choose_dialect (0x202 ∷ 0x302 ∷ 0x300 ∷ [])) (0x202 ∷ 0x302 ∷ 0x300 ∷ [])
    ⊎ ((choose_dialect (0x202 ∷ 0x302 ∷ 0x300 ∷ []) ≡ 0x210)
        × All (λ x. eligible x ≡ false) (0x202 ∷ 0x302 ∷ 0x300 ∷ []))
choose_dialect_lem_example = choose_dialect_lem (0x202 ∷ 0x302 ∷ 0x300 ∷ [])

anonymous_file_command_crashes_example :
    ((handle srv (asks connects) start).status ≡ going)
    × ((handle srv (asks reads) (handle srv (asks connects) start).front).status ≡ crashed)
unfolding command is_smb1 entry accept rest_of slice TreeConnect.is_invalid TreeConnect.path
    SmbPath.split load bytes_eq
anonymous_file_command_crashes_example =
    anonymous_file_command_crashes srv (asks connects) (asks reads) start
      (92 ∷ 0 ∷ 97 ∷ 0 ∷ 92 ∷ 0 ∷ 83 ∷ 0 ∷ []) (83 ∷ []) 8
      (refl, refl, refl, refl, refl, refl, refl) (refl, refl) refl (refl, refl, refl) refl

unknown_dialect_crashes_example :
    is_crashed (negotiate srv env (negotiate_for 3 3) start).status ≡ true
unfolding command is_smb1 entry accept rest_of slice Negotiate.decode Negotiate.is_invalid
    Negotiate.dialects choose_dialect
unknown_dialect_crashes_example =
    unknown_dialect_crashes srv env (negotiate_for 3 3) start
      (record {
        security_mode = 1;
        capabilities = 0;
        client_guid = record { low = 0; high = 0 };
        dialects = 0x303 ∷ [];
        negotiate_context_offset = 0;
        negotiate_context_count = 0;
      })
      0x303 (refl, refl, refl) ((inl refl), refl, (refl, tt)) refl refl

negotiate_breaks_login_example :
    (handle srv (asks (setup raw_token)) (record {
      negotiator = (handle srv (asks (negotiate_for 2 3)) start).front.negotiator;
      link = challenged_link;
    })).status
    ≡ crashed
unfolding handle dispatch negotiate answer command is_smb1 entry accept rest_of slice
    Negotiate.decode Negotiate.is_invalid Negotiate.dialects choose_dialect SessionSetup.is_invalid
    SessionSetup.security_buffer bytes_eq
negotiate_breaks_login_example =
    negotiate_breaks_login srv (asks (negotiate_for 2 3)) (asks (setup raw_token)) start
      challenged_link raw_token (refl, refl) refl (refl, refl) (refl, refl, refl, refl) refl
