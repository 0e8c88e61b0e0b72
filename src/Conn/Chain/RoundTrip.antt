-- ===== src/Conn/Chain/RoundTrip.antt =====
-- The message that compoundContext.Encode of server/compound.go makes, at a receiver with the loop of
-- runReciever of server/conn.go.
use smb_mem_lib.Prelude.{
  ℕ, zero, suc, ◌+◌, ◌%◌, ◌<◌, ◌≤◌, ◌≡◌, refl, ap, ◌∙◌, Bool, true, false, List, [], ◌∷◌, ◌++◌, All,
  none, Bytes, not, ◌||◌, ltb, leb, length, ◌-◌, arith,
}
use smb_mem_lib.Wire.{Slice, bytes_at, from, uint32, uint64, roundup8, zeroed}
use smb_mem_lib.Smb2.Packet.Codec.{has_related}
use smb_mem_lib.Conn.{
  Conn, CompoundContext, Delivery, Received, upto, open_context, receive, and_then, try_handle,
}
use smb_mem_lib.Conn.Cuts.{is_finished}
use smb_mem_lib.Conn.Chain.{
  chain_size, set_related, set_next, copy_slice, encode_from, encode_chain,
}
use smb_mem_lib.Conn.Chain.Bytes.{len-encode_from, byte-encode_last, byte-encode_inner}
use smb_mem_lib.Conn.Chain.Rounds.{
  round_inner, round_last, open_context_first, open_context_related,
}
use smb_mem_lib.Conn.Chain.Marks.{
  IsResponse, IsMarked, last-IsMarked, first-IsMarked, inner-IsMarked, IsMarked-same,
}

-- The bytes of a packet of `n` bytes but for its Flags and NextCommand
abbrev unmarked : ℕ → Slice → Bytes
unmarked n p = bytes_at 0 16 p ++ bytes_at 24 (n - 24) p

-- Each packet is as long as its response with the padding, is not marked as related only if it is the first,
-- and has in its other bytes those of the response.
abbrev pub IsMade : Bool → List Slice → List Delivery → Type 0
IsMade first [] [] = Unit {0}
IsMade first [] (d ∷ ds) = ⊥
IsMade first (p ∷ ps) [] = ⊥
IsMade first (p ∷ ps) (d ∷ ds) =
    (d.pkt.len ≡ roundup8 p.len)
    × (has_related (uint32 16 d.pkt) ≡ not first)
    × (unmarked p.len d.pkt ≡ unmarked p.len p)
    × IsMade false ps ds

-- The loop has ended behind the last packet, and the packets are made of the responses, in their order.
abbrev pub IsCutInto : Bool → List Slice → Received → Type 0
IsCutInto first ps r = (is_finished r.end ≡ true) × IsMade first ps r.delivered

bytes_at-same :
    (off n : ℕ) (p q : Slice)
    → ((k : ℕ) → off ≤ k → k < off + n → p.byte k ≡ q.byte k)
    → bytes_at off n p ≡ bytes_at off n q
bytes_at-same off zero p q h = refl
bytes_at-same off (suc n) p q h =
    rw
      (
        h off (omega arith) (omega arith),
        bytes_at-same (off + 1) n p q (λ k l u. h k (omega (arith, l)) (omega (arith, u))),
      )
      refl

-- A packet that shows a marked response
unmarked-same :
    (n : ℕ) (v q p : Slice)
    → 64 ≤ n
    → ((k : ℕ) → k < n → v.byte k ≡ q.byte k)
    → ((k : ℕ) → (ltb k 16 || leb 24 k) ≡ true → q.byte k ≡ p.byte k)
    → unmarked n v ≡ unmarked n p
unmarked-same n v q p room shows marks =
    let head : bytes_at 0 16 v ≡ bytes_at 0 16 p =
      bytes_at-same 0 16 v p
        (λ k l u. shows k (omega (arith, u, room)) ∙ marks k (ground (arith, u))) in
    let body : bytes_at 24 (n - 24) v ≡ bytes_at 24 (n - 24) p =
      bytes_at-same 24 (n - 24) v p
        (λ k l u. shows k (omega (arith, u, room)) ∙ marks k (ground (arith, l))) in
    ap (λ bs. bs ++ bytes_at 24 (n - 24) v) head ∙ ap (λ bs. bytes_at 0 16 p ++ bs) body

set_related-unmarked :
    (first : Bool) (p : Slice) (k : ℕ)
    → (ltb k 16 || leb 24 k) ≡ true
    → (set_related first p).byte k ≡ p.byte k
set_related-unmarked true p k h = refl
set_related-unmarked false p k h = ground (arith, h)

set_next-unmarked :
    (n : ℕ) (first : Bool) (p : Slice) (k : ℕ)
    → (ltb k 16 || leb 24 k) ≡ true
    → (set_next n (set_related first p)).byte k ≡ p.byte k
set_next-unmarked n first p k h = ground (arith, h, set_related-unmarked first p k h)

module _ (c : Conn) (e : Bool) where
  receive_inner :
      (m n : ℕ) (related : Bool) (cs : List CompoundContext) (v : Slice)
      → IsMarked n related v
      → 64 ≤ v.len
      → n % 8 ≡ 0
      → n < v.len
      → 0 < n
      → receive (suc m) c false e cs v
        ≡ and_then
            (try_handle (upto n v) (length (open_context v cs)) none)
            none
            (receive m c false e (open_context v cs) (from n v))
  unfolding receive
  receive_inner m n related cs v marks room whole small some_next =
      rw
        (
          round_inner v (room, marks.0, marks.1) cs (omega (arith, whole, marks.2))
              (omega (arith, small, marks.2)) (omega (arith, some_next, marks.2)),
          marks.2,
        )
        refl

  -- The last response
  receive_end :
      (m : ℕ) (p b v : Slice) (off : ℕ) (d : CompoundContext) (cs : List CompoundContext)
      → IsResponse p
      → b.len ≡ off + chain_size (p ∷ [])
      → v.len ≡ chain_size (p ∷ [])
      → ((k : ℕ) → k < v.len → v.byte k ≡ (encode_from off false (p ∷ []) b).byte (off + k))
      → IsCutInto false (p ∷ []) (receive (suc m) c false e (d ∷ cs) v)
  unfolding receive try_handle
  receive_end m p b v off d cs r bl vl shows =
      let shown : (k : ℕ) → k < p.len → v.byte k ≡ (set_related false p).byte k = λ k lt.
        shows k (omega (arith, lt, vl, r.0))
        ∙ byte-encode_last off false p b k lt (omega (arith, lt, bl, r.0)) in
      let marks =
        IsMarked-same 0 true v (set_related false p) (λ k lt. shown k (omega (arith, lt, r.0)))
          (last-IsMarked p r) in
      let kept =
        unmarked-same p.len v (set_related false p) p r.0 shown (set_related-unmarked false p) in
      let e : v.len ≡ roundup8 p.len = omega (arith, vl) in
      rw (round_last v (omega (arith, vl, r.0), marks.0, marks.1) d cs marks.2 marks.3)
        (refl, (e, marks.3, kept, tt))

  -- A response before the last, of which the others make the rest of the message
  receive_before :
      (m : ℕ) (first : Bool) (p q : Slice) (ps : List Slice) (b v : Slice) (off : ℕ)
      (cs ds : List CompoundContext)
      → IsResponse p
      → IsResponse q
      → IsMarked (roundup8 p.len) (not first) (set_next (roundup8 p.len) (set_related first p))
      → b.len ≡ off + chain_size (p ∷ q ∷ ps)
      → v.len ≡ chain_size (p ∷ q ∷ ps)
      → ((k : ℕ) → k < v.len → v.byte k ≡ (encode_from off first (p ∷ q ∷ ps) b).byte (off + k))
      → (IsMarked (roundup8 p.len) (not first) v → open_context v cs ≡ ds)
      → IsCutInto false (q ∷ ps) (receive m c false e ds (from (roundup8 p.len) v))
      → IsCutInto first (p ∷ q ∷ ps) (receive (suc m) c false e cs v)
  unfolding try_handle
  receive_before m first p q ps b v off cs ds r t mark bl vl shows context rest =
      let n = roundup8 p.len in
      let shown : (k : ℕ) → k < p.len → v.byte k ≡ (set_next n (set_related first p)).byte k =
        λ k lt.
          shows k (omega (arith, lt, vl, r.0))
          ∙ byte-encode_inner off first p q ps b k lt (omega (arith, lt, bl, r.0)) in
      let marks =
        IsMarked-same n (not first) v (set_next n (set_related first p))
          (λ k lt. shown k (omega (arith, lt, r.0))) mark in
      let kept =
        unmarked-same p.len (upto n v) (set_next n (set_related first p)) p r.0 shown
          (set_next-unmarked n first p) in
      rw
        (
          receive_inner m n (not first) cs v marks (omega (arith, vl, r.0)) (omega arith)
              (omega (arith, vl, t.0)) (omega (arith, r.0)),
          context marks,
        )
        (rest.0, (refl, marks.3, kept, rest.1))

  receive_related :
      (m : ℕ) (p : Slice) (ps : List Slice) (b v : Slice) (off : ℕ) (d : CompoundContext)
      (cs : List CompoundContext)
      → IsResponse p
      → All IsResponse ps
      → b.len ≡ off + chain_size (p ∷ ps)
      → v.len ≡ chain_size (p ∷ ps)
      → ((k : ℕ) → k < v.len → v.byte k ≡ (encode_from off false (p ∷ ps) b).byte (off + k))
      → v.len < m
      → IsCutInto false (p ∷ ps) (receive m c false e (d ∷ cs) v)
  receive_related zero p ps b v off d cs r rs bl vl shows lt = ground (arith, lt)
  receive_related (suc m) p [] b v off d cs r rs bl vl shows lt =
      receive_end m p b v off d cs r bl vl shows
  receive_related (suc m) p (q ∷ ps) b v off d cs r rs bl vl shows lt =
      let n = roundup8 p.len in
      let b' = copy_slice off (set_next n (set_related false p)) b in
      receive_before m false p q ps b v off (d ∷ cs) (d ∷ cs) r rs.0
        (inner-IsMarked p r n (omega (arith, r.1))) bl vl shows
        (λ marks.
          open_context_related v (omega (arith, vl, r.0), marks.0, marks.1) (d ∷ cs) marks.3)
        (receive_related m q ps b' (from n v) (off + n) d cs rs.0 rs.1 (omega (arith, bl))
          (omega (arith, vl))
          (λ k l.
            shows (n + k) (omega (arith, l))
            ∙ ap (encode_from (off + n) false (q ∷ ps) b').byte (omega arith))
          (omega (arith, vl, lt, r.0)))

  -- The message that compoundContext.Encode makes of two or more responses, each as encodeHeader begins
  -- it, of at least 64 and fewer than 2 ^ 31 bytes, with no NextCommand, the first not related, is cut by
  -- the loop of runReciever, where no session is in use, into as many packets, in their order: each as
  -- long as its response rounded up to a multiple of 8, related if it is not the first, and with the bytes
  -- of its response but for Flags and NextCommand; and the loop ends behind the last.
  pub receive-encode_chain :
      (p q : Slice) (ps : List Slice)
      → IsResponse p
      → has_related (uint32 16 p) ≡ false
      → All IsResponse (q ∷ ps)
      → IsCutInto true
          (p ∷ q ∷ ps)
          (receive (suc (suc (chain_size (p ∷ q ∷ ps)))) c false e [] (encode_chain (p ∷ q ∷ ps)))
  unfolding encode_chain
  receive-encode_chain p q ps r plain rs =
      let n = roundup8 p.len in
      let b = zeroed (chain_size (p ∷ q ∷ ps)) in
      let v = encode_from 0 true (p ∷ q ∷ ps) b in
      let vl : v.len ≡ chain_size (p ∷ q ∷ ps) = len-encode_from 0 true (p ∷ q ∷ ps) b in
      let b' = copy_slice 0 (set_next n (set_related true p)) b in
      let d : CompoundContext = record {
        tree_id = uint32 36 v;
        session_id = uint64 40 v;
        last_msg_id = 0;
      } in
      receive_before (suc (chain_size (p ∷ q ∷ ps))) true p q ps b v 0 [] (d ∷ []) r rs.0
        (first-IsMarked p r n (omega (arith, r.1)) plain) (omega arith) vl
        (λ k l. let g : k ≡ 0 + k = omega arith in ap v.byte g)
        (λ marks.
          open_context_first v (omega (arith, vl, r.0), marks.0, marks.1) []
            (omega (arith, marks.2, r.0)) marks.3)
        (receive_related (suc (chain_size (p ∷ q ∷ ps))) q ps b' (from n v) (0 + n) d [] rs.0 rs.1
          (omega arith) (omega (arith, vl))
          (λ k l. let g : n + k ≡ 0 + n + k = omega arith in ap v.byte g) (omega (arith, vl, r.0)))
