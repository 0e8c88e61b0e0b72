-- ===== src/Server/Answers.antt =====
-- server/server.go and server/compound.go: what the handlers answer with: PrepareResponse, accept, and
-- makeResponse with the contexts of internal/smb2/smb2.go.
use smb_mem_lib.Prelude.{
  ℕ, ◌+◌, ◌*◌, ◌/◌, ◌%◌, ◌||◌, Option, none, some, List, [], ◌∷◌, ◌++◌, Bytes, length, ◌==◌,
  if◌then◌else◌,
}
use smb_mem_lib.Wire.{Slice, uint16, uint32, unit_bytes, Decoded, rejected, panicked, decoded}
use smb_mem_lib.Smb2.Packet.{PacketHeader}
use smb_mem_lib.Smb2.Response.Negotiate.{NegotiateResponse}
use smb_mem_lib.Conn.{message_id}
use smb_mem_lib.Conn.Accept.{Accepted, accepted, refused, both, accept}
use smb_mem_lib.Server.{Server, Link, Front, Env, negotiate_body, crashed, Step, stop, send}

abbrev pub no_header : PacketHeader
no_header = record {
  credit_charge = 0;
  channel_sequence = 0;
  status = 0;
  command = 0;
  credit_request_response = 0;
  flags = 0;
  message_id = 0;
  async_id = 0;
  tree_id = 0;
  session_id = 0;
}

-- PrepareResponse, for a request that is not SMB1's
abbrev pub prepare_response : Slice → ℕ → PacketHeader
prepare_response p status = record no_header {
  command = uint16 12 p;
  credit_request_response = uint16 14 p;
  message_id = message_id p;
  flags = 1 + uint32 16 p / 16 % 8 * 16;
  status = status;
}

-- What accept leads to in a handler: the data, an error, or a panic
pub data Entry : Type 0 where
  entered : Entry
  left : Entry
  fell : Entry

abbrev pub entry_of : Decoded Accepted → Entry
entry_of (decoded (accepted d)) = entered
entry_of (decoded (refused e)) = left
entry_of (decoded (both d e)) = left
entry_of rejected = left
entry_of panicked = fell

unfoldable pub entry : ℕ → Slice → Entry
entry cmd p = entry_of (accept cmd p)

-- A NEGOTIATE context: its type, the length of its data, and the data
abbrev context : ℕ → Bytes → Bytes
context kind bs = unit_bytes (kind ∷ length bs ∷ 0 ∷ 0 ∷ []) ++ bs

-- HashContext, CipherContext and CompressionContext
abbrev hash_context : List ℕ → Bytes → Bytes
hash_context algs salt =
    context 1 (unit_bytes (length algs ∷ length salt ∷ []) ++ (unit_bytes algs ++ salt))

abbrev cipher_context : List ℕ → Bytes
cipher_context ciphers = context 2 (unit_bytes (length ciphers ∷ ciphers))

abbrev compression_context : List ℕ → Bytes
compression_context cs = context 3 (unit_bytes (length cs ∷ 0 ∷ 0 ∷ 0 ∷ cs))

-- The dialects of makeResponse with their contexts
abbrev pub contexts_for : Env → Link → ℕ → Option (List Bytes)
contexts_for env l d =
    if d == 0x311
    then some (
        hash_context (l.hash_id ∷ []) env.salt
        ∷ cipher_context (l.cipher_id ∷ [])
        ∷ compression_context (0 ∷ [])
        ∷ [])
    else if d == 0x2FF || (d == 0x202 || (d == 0x210 || (d == 0x300 || d == 0x302)))
    then some []
    else if d == 0
    then some (hash_context (1 ∷ []) env.salt ∷ cipher_context (2 ∷ 1 ∷ []) ∷ [])
    else none

abbrev pub response_with : Server → Env → ℕ → Bytes → List Bytes → NegotiateResponse
response_with srv env d token cs = record {
  security_mode = if srv.require_message_signing then 2 else 1;
  dialect_revision = if d == 0 then 0x311 else d;
  server_guid = record { low = srv.server_guid_low; high = srv.server_guid_high };
  capabilities = 0x77;
  max_transact_size = 0x800000;
  max_read_size = 0x800000;
  max_write_size = 0x800000;
  system_time = env.now;
  server_start_time = record { low = 0; high = 0 };
  security_buffer = token;
  contexts = cs;
}

-- makeResponse, PrepareResponse and sendPacket: makeResponse gives nil for a dialect that it does not
-- know, and its error is not looked at.
abbrev pub answer_with : Option (List Bytes) → Server → Env → PacketHeader → Bytes → Front → Step
answer_with none srv env h token f = stop crashed f
answer_with (some cs) srv env h token f =
    send env none h (negotiate_body (response_with srv env f.negotiator.specified_dialect token cs))
      f

unfoldable pub answer : Server → Env → PacketHeader → Bytes → Front → Step
answer srv env h token f =
    answer_with (contexts_for env f.link f.negotiator.specified_dialect) srv env h token f
