-- ===== src/Conn/Pieces.antt =====
-- The loop of runReciever in server/conn.go: a message is the packet that is cut off and the rest.
use smb_mem_lib.Prelude.{ℕ, zero, suc, ◌+◌, ◌-◌, ◌≤◌, ◌≡◌, refl, ap, ◌∙◌, ◌∷◌, ◌++◌, arith}
use smb_mem_lib.Wire.{Slice, from, bytes_at}
use smb_mem_lib.Conn.{upto}

bytes_at-upto : (k m n : ℕ) (p : Slice) → bytes_at k m (upto n p) ≡ bytes_at k m p
bytes_at-upto k zero n p = refl
bytes_at-upto k (suc m) n p = rw (bytes_at-upto (k + 1) m n p) refl

bytes_at-from : (k m n : ℕ) (p : Slice) → bytes_at k m (from n p) ≡ bytes_at (n + k) m p
bytes_at-from k zero n p = refl
bytes_at-from k (suc m) n p =
    let e : n + (k + 1) ≡ n + k + 1 = omega arith in rw (bytes_at-from (k + 1) m n p, e) refl

bytes_at-split :
    (off a b : ℕ) (p : Slice) → bytes_at off a p ++ bytes_at (off + a) b p ≡ bytes_at off (a + b) p
bytes_at-split off zero b p =
    let e : off + 0 ≡ off = omega arith in let f : 0 + b ≡ b = omega arith in rw (e, f) refl
bytes_at-split off (suc a) b p =
    let e : off + suc a ≡ off + 1 + a = omega arith in
    let f : suc a + b ≡ suc (a + b) = omega arith in
    rw (e, f) (ap (λ t. p.byte off ∷ t) (bytes_at-split (off + 1) a b p))

-- A packet that is cut off and the rest are the whole.
pub bytes_at-cut :
    (n : ℕ) (p : Slice)
    → n ≤ p.len
    → bytes_at 0 n (upto n p) ++ bytes_at 0 (p.len - n) (from n p) ≡ bytes_at 0 p.len p
bytes_at-cut n p le =
    let e : n + (p.len - n) ≡ p.len = omega (arith, le) in
    let start : n + 0 ≡ 0 + n = omega arith in
    rw (bytes_at-upto 0 n n p, bytes_at-from 0 (p.len - n) n p, start)
      (bytes_at-split 0 n (p.len - n) p ∙ ap (λ m. bytes_at 0 m p) e)
