-- ===== src/Conn/Cuts.antt =====
-- The inner loop of runReciever in server/conn.go: what a round does, that the loop ends, and that its
-- packets make up the message.
use mathlib.Core.List.{append-nil}
use smb_mem_lib.Prelude.{
  ℕ, zero, suc, ◌+◌, ◌-◌, ◌<◌, ◌≤◌, ◌≡◌, refl, ap, ◌∙◌, sym, Bool, true, false, Option, none, some,
  List, [], ◌∷◌, ◌++◌, Bytes, ◌||◌, ◌⊎◌, inl, inr, subst, ltb, if◌then◌else◌, arith,
}
use smb_mem_lib.Wire.{Slice, from, bytes_at, Decoded, rejected, panicked, decoded}
use smb_mem_lib.Smb2.Packet.Codec.{is_invalid, next_command}
use smb_mem_lib.Conn.{
  Conn, CompoundContext, Delivery, End, finished, invalid_request, panic, exhausted, upto, Round,
  stopped, last, more, close_context, open_context, cut, round_valid, round, Received, go_on,
  receive, try_handle, Checked, checked, check_crashed, check, hand_last, hand_on, behind, Refusal,
}
use smb_mem_lib.Conn.Pieces.{bytes_at-cut}
use smb_mem_lib.Conn.Checks.{is_unverified, IsChecked, check-IsChecked}

-- The ends that a round may give
abbrev is_stop : End → Bool
is_stop finished = false
is_stop invalid_request = true
is_stop panic = true
is_stop exhausted = false

abbrev pub is_exhausted : End → Bool
is_exhausted finished = false
is_exhausted invalid_request = false
is_exhausted panic = false
is_exhausted exhausted = true

abbrev pub is_finished : End → Bool
is_finished finished = true
is_finished invalid_request = false
is_finished panic = false
is_finished exhausted = false

-- A round hands on the packet itself, or cuts it at its NextCommand.
abbrev IsCut : Slice → Round → Type 0
IsCut p (stopped w) = is_stop w ≡ true
IsCut p (last q cs) = q ≡ p
IsCut p (more a cs q) =
    (0 < next_command p)
    × (next_command p ≤ p.len)
    × (a ≡ upto (next_command p) p)
    × (q ≡ from (next_command p) p)

cut-IsCut : (p : Slice) (o : Option (List CompoundContext)) → IsCut p (cut p o)
cut-IsCut p none = refl
cut-IsCut p (some cs) = ground arith

round_valid-IsCut :
    (d : Decoded Bool) (cs : List CompoundContext) (p : Slice) → IsCut p (round_valid d cs p)
round_valid-IsCut rejected cs p = refl
round_valid-IsCut panicked cs p = refl
round_valid-IsCut (decoded true) cs p = refl
round_valid-IsCut (decoded false) cs p =
    elim (ltb p.len 24)
      as (λ b. IsCut p (if b then stopped panic else cut p (close_context p (open_context p cs)))) [
        | true ↦ refl
        | false ↦ cut-IsCut p (close_context p (open_context p cs))
      ]

round-IsCut : (cs : List CompoundContext) (p : Slice) → IsCut p (round cs p)
unfolding round
round-IsCut cs p = round_valid-IsCut (is_invalid p) cs p

stop-is_exhausted : (w : End) → is_stop w ≡ true → is_exhausted w ≡ false
stop-is_exhausted finished h = refl
stop-is_exhausted invalid_request h = refl
stop-is_exhausted panic h = refl
stop-is_exhausted exhausted h = sym h

stop-is_finished : (w : End) → is_stop w ≡ true → is_finished w ≡ false
stop-is_finished finished h = sym h
stop-is_finished invalid_request h = refl
stop-is_finished panic h = refl
stop-is_finished exhausted h = refl

hand_last-ends :
    (h : Checked) (cs : List CompoundContext) → is_exhausted (hand_last h cs).end ≡ false
hand_last-ends check_crashed cs = refl
hand_last-ends (checked p e) cs = refl

module _ (c : Conn) (s e : Bool) where
  go_on-ends :
      (n : ℕ) (k : List CompoundContext → Slice → Received) (cs : List CompoundContext) (p : Slice)
      (r : Round)
      → IsCut p r
      → p.len < suc n
      → ((ds : List CompoundContext) (q : Slice) → q.len < n → is_exhausted (k ds q).end ≡ false)
      → is_exhausted (go_on c s e k cs r).end ≡ false
  go_on-ends n k cs p (stopped w) h lt ih = stop-is_exhausted w h
  go_on-ends n k cs p (last q ds) h lt ih = hand_last-ends (check c s e q) ds
  go_on-ends n k cs p (more a ds q) h lt ih = handed (check c s e a)
    where
      handed : (x : Checked) → is_exhausted (hand_on x k ds q).end ≡ false
      handed check_crashed = refl
      handed (checked b v) =
          ih ds (behind b q) (omega (arith, h.0, h.1, lt, ap (λ (t : Slice). t.len) h.3))

  -- The inner loop of runReciever does not run out of fuel on a message that is shorter than the fuel:
  -- it ends behind the last packet, by an error or by a panic.
  pub receive-ends :
      (n : ℕ) (cs : List CompoundContext) (p : Slice)
      → p.len < n
      → is_exhausted (receive n c s e cs p).end ≡ false
  unfolding receive
  receive-ends zero cs p lt = ground (arith, lt)
  receive-ends (suc n) cs p lt =
      go_on-ends n (receive n c s e) cs p (round cs p) (round-IsCut cs p) lt
        (λ ds q l. receive-ends n ds q l)

-- The bytes of the packets, one behind the other
abbrev pub joined : List Delivery → Bytes
joined [] = []
joined (d ∷ ds) = bytes_at 0 d.pkt.len d.pkt ++ joined ds

abbrev pub any_unverified : List (Option Refusal) → Bool
any_unverified [] = false
any_unverified (v ∷ vs) = is_unverified v || any_unverified vs

-- How long they are
abbrev pub total : List Delivery → ℕ
total [] = 0
total (d ∷ ds) = d.pkt.len + total ds

-- The packets are as long as the message, and make it up, unless a signature was wrong.
abbrev pub IsWhole : Slice → Received → Type 0
IsWhole p r =
    (total r.delivered ≡ p.len)
    × ((any_unverified r.verdicts ≡ true) ⊎ (joined r.delivered ≡ bytes_at 0 p.len p))

hand_last-IsWhole :
    (p : Slice) (h : Checked) (cs : List CompoundContext)
    → IsChecked p h
    → is_finished (hand_last h cs).end ≡ true
    → IsWhole p (hand_last h cs)
unfolding try_handle
hand_last-IsWhole p check_crashed cs i f = ground (arith, f)
hand_last-IsWhole p (checked q v) cs i f = (
  omega (arith, i.0),
  elim i.1 [
    | inl wrong ↦ inl (rw wrong refl)
    | inr same ↦ inr (append-nil (bytes_at 0 q.len q) ∙ ap (λ (t : Slice). bytes_at 0 t.len t) same)
  ],
)

hand_on-IsWhole :
    (p : Slice) (n : ℕ) (h : Checked) (k : List CompoundContext → Slice → Received)
    (cs : List CompoundContext)
    → n ≤ p.len
    → IsChecked (upto n p) h
    → is_finished (hand_on h k cs (from n p)).end ≡ true
    → ((q : Slice) → is_finished (k cs q).end ≡ true → IsWhole q (k cs q))
    → IsWhole p (hand_on h k cs (from n p))
unfolding try_handle
hand_on-IsWhole p n check_crashed k cs le i f ih = ground (arith, f)
hand_on-IsWhole p n (checked q v) k cs le i f ih =
    let rest = ih (behind q (from n p)) f in
    (
      omega (arith, rest.0, i.0, le),
      elim i.1 [
        | inl wrong ↦ inl (rw wrong refl)
        | inr same ↦ elim rest.1 [
          | inl wrong ↦ inl (ground (arith, wrong))
          | inr made ↦
              let shown : bytes_at 0 q.len q ++ bytes_at 0 (p.len - n) (behind q (from n p))
                  ≡ bytes_at 0 p.len p =
                ap
                  (λ (t : Slice).
                    bytes_at 0 t.len t ++ bytes_at 0 (p.len - n) (behind t (from n p)))
                  same
                ∙ bytes_at-cut n p le in
              inr (ap (λ (bs : Bytes). bytes_at 0 q.len q ++ bs) made ∙ shown)
        ]
      ],
    )

module _ (c : Conn) (s e : Bool) where
  go_on-IsWhole :
      (k : List CompoundContext → Slice → Received) (cs : List CompoundContext) (p : Slice)
      (r : Round)
      → IsCut p r
      → is_finished (go_on c s e k cs r).end ≡ true
      → ((ds : List CompoundContext) (q : Slice)
          → is_finished (k ds q).end ≡ true
          → IsWhole q (k ds q))
      → IsWhole p (go_on c s e k cs r)
  go_on-IsWhole k cs p (stopped w) h f ih = ground (arith, stop-is_finished w h, f)
  go_on-IsWhole k cs p (last q ds) h f ih =
      subst (λ (t : Slice). IsWhole t (hand_last (check c s e q) ds)) h
        (hand_last-IsWhole q (check c s e q) ds (check-IsChecked c s e q) f)
  go_on-IsWhole k cs p (more a ds q) h f ih =
      let n = next_command p in
      subst
        (λ (t : Slice × Slice).
          is_finished (hand_on (check c s e t.0) k ds t.1).end ≡ true
          → IsWhole p (hand_on (check c s e t.0) k ds t.1))
        (sym (ap (λ x. (x, q)) h.2 ∙ ap (λ x. (upto n p, x)) h.3))
        (λ g.
          hand_on-IsWhole p n (check c s e (upto n p)) k ds h.1 (check-IsChecked c s e (upto n p)) g
            (ih ds))
        f

  -- If the inner loop of runReciever ends behind the last packet, the packets that it has handed on are
  -- together as long as the message, and, unless tryVerify has found a wrong signature, which it writes
  -- over, their bytes, one behind the other, are the bytes of the message.
  pub joined-receive :
      (n : ℕ) (cs : List CompoundContext) (p : Slice)
      → is_finished (receive n c s e cs p).end ≡ true
      → (total (receive n c s e cs p).delivered ≡ p.len)
        × ((any_unverified (receive n c s e cs p).verdicts ≡ true)
            ⊎ (joined (receive n c s e cs p).delivered ≡ bytes_at 0 p.len p))
  unfolding receive
  joined-receive zero cs p f = ground (arith, f)
  joined-receive (suc n) cs p f =
      go_on-IsWhole (receive n c s e) cs p (round cs p) (round-IsCut cs p) f
        (λ ds q g. joined-receive n ds q g)
