-- ===== src/Conn.antt =====
-- server/conn.go: runReciever, which cuts a message into its packets, with tryDecrypt, tryVerify
-- and tryHandle, and Session.verify of server/session.go.
pub mod Accept
pub mod Chain
pub mod Checks
pub mod Contexts
pub mod Cuts
pub mod Pieces
pub mod Send
mod Tests
use smb_mem_lib.Prelude.{
  ℕ, zero, suc, ◌+◌, ◌-◌, ◌*◌, ◌/◌, ◌%◌, ◌^◌, Bool, true, false, ◌&&◌, ◌||◌, not, Option, none,
  some, List, [], ◌∷◌, Bytes, bytes_eq, ltb, leb, length, ◌==◌, if◌then◌else◌,
}
use smb_mem_lib.Wire.{
  Slice, zeroed, nth, bytes_at, from, uint16, uint32, uint64, Decoded, rejected, panicked, decoded,
}
use smb_mem_lib.Smb2.Packet.Codec.{
  is_magic, is_invalid, is_compound_first, is_compound_last, next_command, is_invalid_transform,
  transform_of,
}

-- The session as the receiver uses it: `verifier` is what its hash makes of a packet, if there is one,
-- and `decrypt` is that of session.go.
pub record Session : Type 0 where
  pub session_id : ℕ
  pub session_flags : ℕ
  pub verifier : Option (Slice → Bytes)
  pub decrypt : Slice → Option Slice

-- conn as the receiver reads it
pub record Conn : Type 0 where
  pub session : Option Session
  pub require_signing : Bool

-- compoundContext at the receiver; the fields that handlers fill are left out.
pub record CompoundContext : Type 0 where
  pub tree_id : ℕ
  pub session_id : ℕ
  pub last_msg_id : ℕ

-- MessageId
abbrev pub message_id : Slice → ℕ
message_id p = if is_magic 0xff p then 2 ^ 64 - 1 else uint64 24 p

-- The InvalidResponseErrors of tryVerify and tryDecrypt
pub data Refusal : Type 0 where
  unknown_session_id : Refusal
  unverified_packet : Refusal
  signing_required : Refusal
  broken_packet_header : Refusal
  encrypted_flag_not_on : Refusal
  decrypt_failed : Refusal

-- `flags & (IS_GUEST | IS_NULL) == 0`
abbrev pub is_user : ℕ → Bool
is_user flags = flags % 4 == 0

-- SetSignature: copy(p[48:64], bs), which reaches behind p where it is short
abbrev set_signature : Bytes → Slice → Slice
set_signature bs p = record {
  len = p.len;
  byte =
      λ i. if leb 48 i && (ltb i 64 && ltb i (48 + length bs)) then nth bs (i - 48) else p.byte i;
  fault = p.fault;
}

-- Signature
abbrev pub signature : Slice → Bytes
signature p = bytes_at 48 16 p

-- The packet as Session.verify leaves it: with the hash of the packet with no signature
abbrev pub signed_by : (Slice → Bytes) → Slice → Slice
signed_by mac p = let q = set_signature (bytes_at 0 16 (zeroed 16)) p in set_signature (mac q) q

-- tryVerify: the packet, which Session.verify writes to, with the error, or a panic without a verifier
pub data Checked : Type 0 where
  checked : Slice → Option Refusal → Checked
  check_crashed : Checked

-- Session.verify
abbrev pub verify : Option (Slice → Bytes) → Slice → Checked
verify none p = check_crashed
verify (some mac) p =
    checked (signed_by mac p) (
      if bytes_eq (signature p) (signature (signed_by mac p)) then none else some unverified_packet)

-- The two branches of tryVerify on SMB2_FLAGS_SIGNED
abbrev pub verify_signed : Option Session → Slice → Checked
verify_signed none p = checked p (some unknown_session_id)
verify_signed (some s) p =
    if s.session_id == uint64 40 p then verify s.verifier p else checked p (some unknown_session_id)

abbrev verify_unsigned : Option Session → Slice → Option Refusal
verify_unsigned none p = none
verify_unsigned (some s) p =
    if is_user s.session_flags && s.session_id == uint64 40 p then some signing_required else none

-- tryVerify
pub try_verify : Conn → Slice → Bool → Checked
try_verify c p is_encrypted =
    if message_id p == 2 ^ 64 - 1
    then checked p none
    else if uint32 16 p / 8 % 2 == 1
    then verify_signed c.session p
    else if c.require_signing && not is_encrypted
    then checked p (verify_unsigned c.session p)
    else checked p none

-- tryDecrypt: what it returns, with isEncrypted.
pub data Opened : Type 0 where
  refused : Refusal → Opened
  opened : Slice → Bool → Opened
  crashed : Opened

abbrev decrypt_with : Option Session → Slice → Opened
decrypt_with none p = refused unknown_session_id
decrypt_with (some s) p =
    if s.session_id == (transform_of p).session_id
    then elim (s.decrypt p) as (λ o. Opened) [
      | none ↦ refused decrypt_failed
      | some q ↦ opened q true
    ]
    else refused unknown_session_id

abbrev decrypt_transform : Conn → Slice → Opened
decrypt_transform c p =
    if is_invalid_transform p
    then refused broken_packet_header
    else if (transform_of p).flags == 1
    then decrypt_with c.session p
    else refused encrypted_flag_not_on

abbrev decrypt_if : Decoded Bool → Conn → Slice → Opened
decrypt_if (decoded false) c p = opened p false
decrypt_if (decoded true) c p = decrypt_transform c p
decrypt_if panicked c p = crashed
decrypt_if rejected c p = crashed

unfoldable pub try_decrypt : Conn → Slice → Opened
try_decrypt c p = decrypt_if (is_invalid p) c p

-- requestResponse: a packet as it is handed on, with the number of compound contexts made so far, of which the last is
-- its own, and 0 for a nil one.
pub record Delivery : Type 0 where
  pub pkt : Slice
  pub context : ℕ

-- tryHandle, which is given the error of tryVerify
pub try_handle : Slice → ℕ → Option Refusal → Delivery
try_handle p context e = record { pkt = p; context = context }

-- How the inner loop of runReciever ends: behind the last packet, by InvalidRequestError, by a panic,
-- or not within the fuel.
pub data End : Type 0 where
  finished : End
  invalid_request : End
  panic : End
  exhausted : End

-- pkt[:off]
abbrev pub upto : ℕ → Slice → Slice
upto off p = record { len = off; byte = p.byte; fault = p.fault }

-- One round: the loop ends without a packet, or hands one on and goes on with `next`, if any.
pub data Round : Type 0 where
  stopped : End → Round
  last : Slice → List CompoundContext → Round
  more : Slice → List CompoundContext → Slice → Round

-- IsCompoundFirst makes a context, newest first.
abbrev pub open_context : Slice → List CompoundContext → List CompoundContext
open_context p cs =
    if is_compound_first p
    then record { tree_id = uint32 36 p; session_id = uint64 40 p; last_msg_id = 0 } ∷ cs
    else cs

-- IsCompoundLast sets lastMsgId, of a nil context by a panic.
abbrev set_last : ℕ → List CompoundContext → Option (List CompoundContext)
set_last i [] = none
set_last i (c ∷ cs) = some (record c { last_msg_id = i } ∷ cs)

abbrev pub close_context : Slice → List CompoundContext → Option (List CompoundContext)
close_context p cs = if is_compound_last p then set_last (message_id p) cs else some cs

abbrev pub cut : Slice → Option (List CompoundContext) → Round
cut p none = stopped panic
cut p (some cs) =
    if next_command p == 0
    then last p cs
    else if ltb p.len (next_command p)
    then stopped panic
    else more (upto (next_command p) p) cs (from (next_command p) p)

-- The fields of the header are read up to NextCommand.
abbrev pub round_valid : Decoded Bool → List CompoundContext → Slice → Round
round_valid (decoded true) cs p = stopped invalid_request
round_valid (decoded false) cs p =
    if ltb p.len 24 then stopped panic else cut p (close_context p (open_context p cs))
round_valid panicked cs p = stopped panic
round_valid rejected cs p = stopped panic

pub round : List CompoundContext → Slice → Round
round cs p = round_valid (is_invalid p) cs p

-- The packets handed on and what tryVerify said of each, which is only logged, with the contexts made
pub record Received : Type 0 where
  pub delivered : List Delivery
  pub verdicts : List (Option Refusal)
  pub contexts : List CompoundContext
  pub end : End

abbrev ended : End → List CompoundContext → Received
ended w cs = record { delivered = []; verdicts = []; contexts = cs; end = w }

abbrev pub check : Conn → Bool → Bool → Slice → Checked
check c has_session is_encrypted p =
    if has_session then try_verify c p is_encrypted else checked p none

abbrev pub and_then : Delivery → Option Refusal → Received → Received
and_then d e r = record r { delivered = d ∷ r.delivered; verdicts = e ∷ r.verdicts }

-- The rest `q` of the message behind the packet `p`, which stand in the same array
abbrev pub behind : Slice → Slice → Slice
behind p q = record { len = q.len; byte = λ i. p.byte (p.len + i); fault = q.fault }

-- The packet is handed on, and the loop ends or goes on.
abbrev pub hand_last : Checked → List CompoundContext → Received
hand_last check_crashed cs = ended panic cs
hand_last (checked p e) cs = and_then (try_handle p (length cs) e) e (ended finished cs)

abbrev pub hand_on :
    Checked → (List CompoundContext → Slice → Received) → List CompoundContext → Slice → Received
hand_on check_crashed k cs q = ended panic cs
hand_on (checked p e) k cs q = and_then (try_handle p (length cs) e) e (k cs (behind p q))

abbrev pub go_on :
    Conn
    → Bool
    → Bool
    → (List CompoundContext → Slice → Received)
    → List CompoundContext
    → Round
    → Received
go_on c s e k cs (stopped w) = ended w cs
go_on c s e k cs (last p ds) = hand_last (check c s e p) ds
go_on c s e k cs (more p ds q) = hand_on (check c s e p) k ds q

-- The inner loop of runReciever, on fuel
pub receive : ℕ → Conn → Bool → Bool → List CompoundContext → Slice → Received
receive zero c s e cs p = ended exhausted cs
receive (suc n) c s e cs p = go_on c s e (receive n c s e) cs (round cs p)
