-- ===== src/Conn/Accept.antt =====
-- accept and acceptError of server/conn.go, which every handler calls first.
use smb_mem_lib.Prelude.{
  ℕ, zero, suc, ◌+◌, ◌-◌, ◌%◌, ◌^◌, ◌<◌, ◌≤◌, ◌≡◌, Bool, false, ◌||◌, ◌&&◌, not, List, [], ◌∷◌,
  Bytes, length, ltb, ◌==◌, if◌then◌else◌, arith,
}
use smb_mem_lib.Wire.{
  Slice, nth, from, uint16, uint32, roundup8, Decoded, rejected, panicked, decoded, ◌>>=◌, slice,
  rest_of,
}
use smb_mem_lib.Smb2.Packet.Codec.{command}
use smb_mem_lib.Smb2.Response.Error
use smb_mem_lib.Smb2.Response.Ioctl

-- The errors that accept returns: of os, InvalidResponseError and ResponseError
pub data AcceptError : Type 0 where
  expected_command : ℕ → AcceptError
  already_exists : AcceptError
  not_exist : AcceptError
  permission : AcceptError
  broken_error : AcceptError
  broken_context : AcceptError
  response_error : ℕ → List Bytes → AcceptError

-- What accept returns: the data, an error, or both
pub data Accepted : Type 0 where
  accepted : Bytes → Accepted
  refused : AcceptError → Accepted
  both : Bytes → AcceptError → Accepted

-- Bytes as a slice of their own
abbrev pub of_bytes : Bytes → Slice
of_bytes bs = record { len = length bs; byte = nth bs; fault = false }

-- ErrorContextResponseDecoder: IsInvalid, ErrorContextData and Next
unfoldable pub is_invalid_context : Slice → Bool
is_invalid_context r = ltb r.len 8 || ltb (r.len % 2 ^ 32) ((8 + uint32 0 r) % 2 ^ 32)

unfoldable pub error_context_data : Slice → Decoded Bytes
error_context_data r = slice 8 ((8 + uint32 0 r) % 2 ^ 32) r

abbrev next_context : Slice → ℕ
next_context r = 8 + roundup8 (uint32 0 r)

-- The loop of acceptError over `count` contexts
abbrev with_data : Bytes → Decoded (List Bytes) → Decoded (List Bytes)
with_data d rejected = rejected
with_data d panicked = panicked
with_data d (decoded ds) = decoded (d ∷ ds)

unfoldable pub error_contexts : ℕ → Slice → Decoded (List Bytes)
error_contexts zero r = decoded []
error_contexts (suc n) r =
    let rest = error_contexts n (from (next_context r) r) in
    if is_invalid_context r
    then rejected
    else (error_context_data r >>= λ d.
        if ltb r.len (next_context r) then rejected else with_data d rest)

abbrev of_contexts : ℕ → Decoded (List Bytes) → Decoded AcceptError
of_contexts status rejected = decoded broken_context
of_contexts status panicked = panicked
of_contexts status (decoded ds) = decoded (response_error status ds)

-- acceptError
pub accept_error : ℕ → Slice → Decoded AcceptError
accept_error status r =
    if Error.is_invalid r
    then decoded broken_error
    else (Error.error_data r >>= λ d.
        if r.byte 2 == 0
        then decoded (response_error status (d ∷ []))
        else of_contexts status (error_contexts (r.byte 2) (of_bytes d)))

-- p.Data() with acceptError
abbrev fail_with : ℕ → Slice → Decoded Accepted
fail_with status p =
    rest_of 64 p >>= λ d. accept_error status (from 64 p) >>= λ e. decoded (refused e)

-- The two switches of accept
abbrev accept_special : ℕ → ℕ → Slice → Decoded Accepted
accept_special cmd status p =
    if cmd == 1 && status == 0xC0000016
    then (rest_of 64 p >>= λ d. decoded (accepted d))
    else if (cmd == 16 || cmd == 8) && status == 0x80000005
    then decoded (refused (response_error status []))
    else if cmd == 15 && status == 0x10C
    then decoded (refused (response_error status []))
    else if cmd == 11 && status == 0x80000005
    then (rest_of 64 p >>= λ d.
        if Ioctl.is_invalid (from 64 p)
        then fail_with status p
        else decoded (both d (response_error status [])))
    else fail_with status p

unfoldable pub accept_status : ℕ → ℕ → Slice → Decoded Accepted
accept_status cmd status p =
    if status == 0
    then (rest_of 64 p >>= λ d. decoded (accepted d))
    else if status == 0xC0000035
    then decoded (refused already_exists)
    else if status == 0xC0000034 || status == 0xC000003A
    then decoded (refused not_exist)
    else if status == 0xC0000022 || status == 0xC0000121
    then decoded (refused permission)
    else accept_special cmd status p

-- accept; SMB2_FLAGS_SERVER_TO_REDIR is the lowest bit of the flags.
unfoldable pub accept : ℕ → Slice → Decoded Accepted
accept cmd p = command p >>= λ got.
    if not (got == cmd)
    then decoded (refused (expected_command got))
    else if uint32 16 p % 2 == 0
    then (rest_of 64 p >>= λ d. decoded (accepted d))
    else accept_status cmd (uint32 8 p) p

-- A ByteCount of 2 ^ 32 - 8 or more passes IsInvalid, because its sum with 8 wraps round, and ErrorData
-- then panics.
accept_error_wraps :
    (status : ℕ) (r : Slice)
    → 8 ≤ r.len
    → r.len < 2 ^ 32
    → uint16 0 r ≡ 9
    → 2 ^ 32 ≤ 8 + uint32 4 r
    → uint32 4 r < 2 ^ 32
    → accept_error status r ≡ panicked
unfolding accept_error Error.is_invalid Error.error_data slice
accept_error_wraps status r room fit struct wraps word =
    let sum : (8 + uint32 4 r) % 2 ^ 32 ≡ 8 + uint32 4 r - 2 ^ 32 = omega (arith, wraps, word) in
    rw (sum, struct) (ground (arith, room, fit, word, wraps))
