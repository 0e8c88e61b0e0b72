-- ===== src/Conn/Checks.antt =====
-- tryVerify of server/conn.go and Session.verify of server/session.go: what they do to a packet.
use std.Path.{fun_ext}
use smb_mem_lib.Prelude.{
  if_case, ℕ, zero, suc, ◌+◌, ◌-◌, ◌%◌, ◌/◌, ◌^◌, ◌<◌, ◌≡◌, ◌⊎◌, inl, inr, refl, ap, ◌∙◌, sym, Bool,
  true, false, ◌&&◌, not, Bool-cases, Option, none, some, Bytes, bytes_eq, bytes_eq_iff, ltb, leb,
  ◌==◌, arith,
}
use smb_mem_lib.Wire.{Slice, bytes_at, nth, uint32, uint64}
use smb_mem_lib.Conn.{
  Conn, Session, Refusal, unverified_packet, signature, signed_by, Checked, checked, check_crashed,
  verify, verify_signed, try_verify, check, message_id,
}

-- Whether tryVerify has found a wrong signature
abbrev pub is_unverified : Option Refusal → Bool
is_unverified none = false
is_unverified (some unverified_packet) = true
is_unverified (some r) = false

nth-bytes_at : (i n off : ℕ) (p : Slice) → i < n → nth (bytes_at off n p) i ≡ p.byte (off + i)
nth-bytes_at i zero off p lt = ground (arith, lt)
nth-bytes_at zero (suc n) off p lt = let e : off ≡ off + 0 = omega arith in ap p.byte e
nth-bytes_at (suc i) (suc n) off p lt =
    let e : off + 1 + i ≡ off + suc i = omega arith in
    nth-bytes_at i n (off + 1) p (omega (arith, lt)) ∙ ap p.byte e

-- Packets with the same signature have the same bytes there.
byte-signature :
    (p q : Slice) (i : ℕ) → signature p ≡ signature q → i < 16 → p.byte (48 + i) ≡ q.byte (48 + i)
byte-signature p q i same lt =
    sym (nth-bytes_at i 16 48 p lt) ∙ (ap (λ bs. nth bs i) same ∙ nth-bytes_at i 16 48 q lt)

-- A signature that is right is written over itself.
signed_by-right :
    (mac : Slice → Bytes) (p : Slice)
    → bytes_eq (signature p) (signature (signed_by mac p)) ≡ true
    → signed_by mac p ≡ p
signed_by-right mac p right =
    let whole : (ℕ → ℕ) → Slice = λ b. record { len = p.len; byte = b; fault = p.fault } in
    ap whole (fun_ext same_byte)
  where
    same_byte : (i : ℕ) → (signed_by mac p).byte i ≡ p.byte i
    same_byte i = elim (Bool-cases (leb 48 i && ltb i 64)) [
      | inl inside ↦
          let at : 48 + (i - 48) ≡ i = ground (arith, inside) in
          let e =
            byte-signature (signed_by mac p) p (i - 48)
              (sym ((bytes_eq_iff (signature p) (signature (signed_by mac p))).0 right))
              (ground (arith, inside)) in
          ap (signed_by mac p).byte (sym at) ∙ (e ∙ ap p.byte at)
      | inr outside ↦ ground (arith, outside)
    ]

-- What tryVerify leaves of a packet: its length, and all of it, unless its signature is wrong
abbrev pub IsChecked : Slice → Checked → Type 0
IsChecked p check_crashed = Unit {0}
IsChecked p (checked q v) = (q.len ≡ p.len) × ((is_unverified v ≡ true) ⊎ (q ≡ p))

verify-IsChecked : (m : Option (Slice → Bytes)) (p : Slice) → IsChecked p (verify m p)
verify-IsChecked none p = tt
verify-IsChecked (some mac) p =
    elim (Bool-cases (bytes_eq (signature p) (signature (signed_by mac p)))) [
      | inl right ↦ (refl, inr (signed_by-right mac p right))
      | inr wrong ↦ (refl, inl (rw wrong refl))
    ]

verify_signed-IsChecked : (o : Option Session) (p : Slice) → IsChecked p (verify_signed o p)
verify_signed-IsChecked none p = (refl, inr refl)
verify_signed-IsChecked (some s) p =
    if_case (IsChecked p) (s.session_id == uint64 40 p) (verify-IsChecked s.verifier p)
      (refl, inr refl)

pub check-IsChecked : (c : Conn) (s e : Bool) (p : Slice) → IsChecked p (check c s e p)
unfolding try_verify
check-IsChecked c s e p =
    if_case (IsChecked p) s
      (if_case (IsChecked p) (message_id p == 2 ^ 64 - 1) (refl, inr refl)
        (if_case (IsChecked p) (uint32 16 p / 8 % 2 == 1) (verify_signed-IsChecked c.session p)
          (if_case (IsChecked p) (c.require_signing && not e) (refl, inr refl) (refl, inr refl))))
      (refl, inr refl)
