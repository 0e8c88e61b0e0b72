-- ===== src/Server/Negotiation.antt =====
-- server/server.go: negotiate of the connection and of ServerNegotiator, with the decoders of the
-- contexts in internal/smb2/smb2.go.
use smb_mem_lib.Prelude.{
  ℕ, zero, suc, ◌+◌, ◌*◌, ◌/◌, ◌%◌, ◌^◌, Bool, true, false, ◌&&◌, ◌||◌, not, none, some, List, [],
  ◌∷◌, Bytes, length, drop, ltb, leb, ◌==◌, if◌then◌else◌,
}
use smb_mem_lib.Wire.{Slice, from, uint16, roundup8, Decoded, rejected, panicked, decoded, slice}
use smb_mem_lib.Smb2.Packet.{PacketHeader}
use smb_mem_lib.Smb2.Packet.Codec.{is_smb1}
use smb_mem_lib.Smb2.Request.Negotiate
use smb_mem_lib.Smb2.Request.Negotiate.{NegotiateRequestView, negotiate_context_list}
use smb_mem_lib.Conn.Accept.{of_bytes}
use smb_mem_lib.Server.{
  Server, ConnState, state_negotiate, Link, Front, Env, crashed, closed, Step, stop,
}
use smb_mem_lib.Server.Answers.{
  no_header, prepare_response, Entry, entered, left, fell, entry, answer,
}

-- The loop over the dialects of the client, and SMB210 for none
abbrev pub pick : ℕ → List ℕ → ℕ
pick best [] = best
pick best (d ∷ ds) = pick (if ltb best d && leb d 0x311 then d else best) ds

unfoldable pub choose_dialect : List ℕ → ℕ
choose_dialect ds = let d = pick 0x2FF ds in if d == 0x2FF then 0x210 else d

-- One context of the client: the connection after it, an error, or a panic
pub data Handled : Type 0 where
  handled : Link → Handled
  erred : Handled
  died : Handled

abbrev pub set_hash : Slice → Link → Handled
set_hash h l =
    if ltb h.len 4 || ltb h.len (4 + uint16 0 h * 2 + uint16 2 h)
    then erred
    else if uint16 0 h == 1
    then handled (record l { preauth_hash_id = uint16 4 h })
    else erred

-- The first cipher that is known, or else the one there was
abbrev first_cipher : ℕ → ℕ → ℕ → Slice → ℕ
first_cipher zero i old h = old
first_cipher (suc n) i old h =
    let c = uint16 (2 + 2 * i) h in
    let rest = first_cipher n (i + 1) old h in if c == 1 || c == 2 then c else rest

abbrev pub set_cipher : Slice → Link → Handled
set_cipher h l =
    if ltb h.len 2 || ltb h.len (2 + uint16 0 h * 2)
    then erred
    else let c = first_cipher (uint16 0 h) 0 l.cipher_id h in
      if c == 1 || c == 2 then handled (record l { cipher_id = c }) else erred

abbrev pub handle_data : ℕ → Decoded Bytes → Link → Handled
handle_data kind rejected l = died
handle_data kind panicked l = died
handle_data kind (decoded bs) l =
    if kind == 1
    then set_hash (of_bytes bs) l
    else if kind == 2
    then set_cipher (of_bytes bs) l
    else handled l

-- Data: the end is uint16.
abbrev pub handle_context : Slice → Link → Handled
handle_context ctx l =
    if ltb ctx.len 8 || ltb ctx.len (8 + uint16 2 ctx)
    then erred
    else if uint16 0 ctx == 1 || uint16 0 ctx == 2
    then handle_data (uint16 0 ctx) (slice 8 ((8 + uint16 2 ctx) % 2 ^ 16) ctx) l
    else handled l

abbrev pub and_contexts : Handled → (Link → Handled) → Handled
and_contexts (handled l) k = k l
and_contexts erred k = erred
and_contexts died k = died

-- The loop over the contexts
unfoldable pub handle_contexts : ℕ → Bytes → Link → Handled
handle_contexts zero list l = handled l
handle_contexts (suc n) list l =
    let ctx = of_bytes list in
    let off = roundup8 (8 + uint16 2 ctx) in
    and_contexts (handle_context ctx l)
      (handle_contexts n (if ltb (length list) off then [] else drop off list))

abbrev pub answer_contexts : Handled → Server → Env → PacketHeader → Bytes → Front → Step
answer_contexts (handled l) srv env h token f = answer srv env h token (record f { link = l })
answer_contexts erred srv env h token f = stop closed f
answer_contexts died srv env h token f = stop crashed f

abbrev pub handle_list : ℕ → Decoded Bytes → Link → Handled
handle_list n (decoded list) l = handle_contexts n list l
handle_list n rejected l = died
handle_list n panicked l = died

-- The settings of the connection, and a fresh Spnego for the server
abbrev pub settled : Server → NegotiateRequestView → Front → Front
settled srv r f = record {
  negotiator = record {
    specified_dialect = choose_dialect r.dialects;
    spnego = some (record { selected = false });
  };
  link = record f.link {
    require_signing = srv.require_message_signing || r.security_mode / 2 % 2 == 1;
    capabilities = r.capabilities % 8 + r.capabilities / 16 % 8 * 16;
    dialect = choose_dialect r.dialects;
  };
}

abbrev pub negotiate_with : Decoded NegotiateRequestView → Server → Env → Slice → Front → Step
negotiate_with rejected srv env p f = stop closed f
negotiate_with panicked srv env p f = stop crashed f
negotiate_with (decoded r) srv env p f =
    let g = settled srv r f in
    let token = srv.mechanism.init_token in
    if choose_dialect r.dialects == 0x311
    then answer_contexts
        (handle_list r.negotiate_context_count (negotiate_context_list (from 64 p)) g.link) srv env
        (prepare_response p 0) token g
    else answer srv env (prepare_response p 0) token g

abbrev pub negotiate_entered : Entry → Server → Env → Slice → Front → Step
negotiate_entered left srv env p f = stop closed f
negotiate_entered fell srv env p f = stop crashed f
negotiate_entered entered srv env p f = negotiate_with (Negotiate.decode (from 64 p)) srv env p f

abbrev pub negotiate_packet : Decoded Bool → Server → Env → Slice → Front → Step
negotiate_packet rejected srv env p f = stop crashed f
negotiate_packet panicked srv env p f = stop crashed f
negotiate_packet (decoded true) srv env p f =
    let n = record f.negotiator { specified_dialect = 0x2FF } in
    answer srv env (record no_header { flags = 1 }) [] (record f { negotiator = n })
negotiate_packet (decoded false) srv env p f = negotiate_entered (entry 0 p) srv env p f

-- conn.negotiate: with a session in use, it is given up first.
abbrev pub given_up : Link → Link
given_up l = record l { session = none; use_session = false; server_state = state_negotiate }

abbrev pub is_negotiating : ConnState → Bool
is_negotiating state_negotiate = true
is_negotiating s = false

abbrev pub reset : Link → Link
reset l = if not (is_negotiating l.server_state) && l.use_session then given_up l else l

unfoldable pub negotiate : Server → Env → Slice → Front → Step
negotiate srv env p f = negotiate_packet (is_smb1 p) srv env p (record f { link = reset f.link })
