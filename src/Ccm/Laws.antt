-- ===== src/Ccm/Laws.antt =====
-- Seal and Open of internal/crypto/ccm together.
use smb_mem_lib.Prelude.{
  ℕ, zero, suc, ◌+◌, ◌-◌, ◌/◌, ◌≤◌, ◌<◌, ◌≡◌, refl, ap, ◌∙◌, Bool, true, false, [], ◌∷◌, ◌++◌,
  Bytes, bytes_eq_iff, length, take, drop, replicate, ltb, leb, ◌==◌, if◌then◌else◌, arith,
  Bool-cases, inl, inr, length-append, length-take, length-replicate,
}
use smb_mem_lib.Ccm.{
  xor_digits, xor_bytes, max_uvarint, Mac, new_mac, xor_at, done, write_byte, write, pad_zero,
  data_length, first_block, get_tag, counter, seal, open_ciphertext,
}

xor_digits_comm : (n a b : ℕ) → xor_digits n a b ≡ xor_digits n b a
xor_digits_comm zero a b = refl
xor_digits_comm (suc n) a b = omega (arith, xor_digits_comm n (a / 2) (b / 2))

xor_bytes_comm : (a b : Bytes) → length a ≡ length b → xor_bytes a b ≡ xor_bytes b a
unfolding xor_bytes
xor_bytes_comm [] [] h = refl
xor_bytes_comm [] (y ∷ b) h = ground (arith, h)
xor_bytes_comm (x ∷ a) [] h = ground (arith, h)
xor_bytes_comm (x ∷ a) (y ∷ b) h =
    rw (xor_digits_comm 8 x y, xor_bytes_comm a b (omega (arith, h))) refl

length-xor_bytes : (a b : Bytes) → length (xor_bytes a b) ≡ length a
unfolding xor_bytes
length-xor_bytes [] b = refl
length-xor_bytes (x ∷ a) [] = refl
length-xor_bytes (x ∷ a) (y ∷ b) = omega (arith, length-xor_bytes a b)

length-xor_at : (p c : ℕ) (ci : Bytes) → length (xor_at p c ci) ≡ length ci
unfolding xor_at
length-xor_at p c [] = refl
length-xor_at zero c (b ∷ ci) = refl
length-xor_at (suc p) c (b ∷ ci) = omega (arith, length-xor_at p c ci)

take_all : (a b : Bytes) (n : ℕ) → n ≡ length a → take n (a ++ b) ≡ a
take_all [] b n h = rw h refl
take_all (x ∷ a) b zero h = ground (arith, h)
take_all (x ∷ a) b (suc n) h = rw (take_all a b n (omega (arith, h))) refl

take-append : (a b : Bytes) (n m : ℕ) → n ≡ length a → take (n + m) (a ++ b) ≡ a ++ take m b
take-append [] b n m h = let e : n + m ≡ m = omega (arith, h) in rw e refl
take-append (x ∷ a) b n m h =
    let e : n + m ≡ suc (length a + m) = omega (arith, h) in
    rw e (ap (λ (t : Bytes). x ∷ t) (take-append a b (length a) m refl))

drop_all : (a b : Bytes) (n : ℕ) → n ≡ length a → drop n (a ++ b) ≡ b
drop_all [] b n h = rw h refl
drop_all (x ∷ a) b zero h = ground (arith, h)
drop_all (x ∷ a) b (suc n) h = drop_all a b n (omega (arith, h))

length-if :
    (b : Bool) (m n : Mac)
    → length m.ci ≡ 16
    → length n.ci ≡ 16
    → length (if b then m else n).ci ≡ 16
length-if true m n h k = h
length-if false m n h k = k

module _ (encrypt : Bytes → Bytes)
    (block : (b : Bytes) → length b ≡ 16 → length (encrypt b) ≡ 16) where
  length-write : (m : Mac) (s : Bytes) → length m.ci ≡ 16 → length (write encrypt m s).ci ≡ 16
  unfolding write
  length-write m [] h = h
  length-write m (c ∷ s) h =
      length-write (write_byte encrypt m c) s (elim (Bool-cases (leb (length m.ci) m.p)) [
        | inl e ↦ rw e (length-xor_at 0 c (encrypt m.ci) ∙ block m.ci h)
        | inr e ↦ rw e (length-xor_at m.p c m.ci ∙ h)
      ])

  length-pad_zero : (m : Mac) → length m.ci ≡ 16 → length (pad_zero encrypt m).ci ≡ 16
  length-pad_zero m h = ground (arith, block m.ci h, h)

  module _ (nonce_size tag_size : ℕ) where
    length-get_tag :
        (nonce additional plaintext : Bytes)
        → length (get_tag encrypt nonce_size tag_size nonce additional plaintext) ≡ 16
    unfolding get_tag
    length-get_tag nonce additional plaintext =
        let start =
          write encrypt new_mac
            (first_block encrypt nonce_size tag_size nonce additional (length plaintext)) in
        let start_length =
          length-write new_mac
            (first_block encrypt nonce_size tag_size nonce additional (length plaintext)) refl in
        let measured = write encrypt start (data_length encrypt (length additional)) in
        let with_data = write encrypt measured additional in
        let head = if length additional == 0 then start else pad_zero encrypt with_data in
        length-pad_zero (write encrypt head plaintext) (
          length-write head plaintext (
            length-if (length additional == 0) start (pad_zero encrypt with_data) start_length (
              length-pad_zero with_data (
                length-write measured additional
                  (length-write start (data_length encrypt (length additional)) start_length)))))

    module _ (xor_key_stream : Bytes → Bytes → Bytes)
        (again : (iv s : Bytes) → xor_key_stream iv (xor_key_stream iv s) ≡ s)
        (as_long : (iv s : Bytes) → length (xor_key_stream iv s) ≡ length s)
        (nonce plaintext additional : Bytes) (size : length nonce ≡ nonce_size)
        (small_nonce : nonce_size ≤ 13) (tag : tag_size ≤ 16) where
      abbrev s0 : Bytes
      s0 = encrypt (counter encrypt nonce_size tag_size nonce 0)

      abbrev the_tag : Bytes
      the_tag = xor_bytes s0 (get_tag encrypt nonce_size tag_size nonce additional plaintext)

      abbrev masked : Bytes
      masked = xor_key_stream (counter encrypt nonce_size tag_size nonce 1) plaintext

      length-s0 : length s0 ≡ 16
      length-s0 =
          let zeros : Bytes = replicate (14 - length nonce) 0 in
          let last : Bytes = 0 ∷ [] in
          block (counter encrypt nonce_size tag_size nonce 0) (
            omega (
              arith,
              size,
              small_nonce,
              length-append nonce (zeros ++ last),
              length-append zeros last,
              length-replicate {A = ℕ} (14 - length nonce) 0,
            ))

      length-the_tag : length the_tag ≡ 16
      length-the_tag =
          length-xor_bytes s0 (get_tag encrypt nonce_size tag_size nonce additional plaintext)
          ∙ length-s0

      the_tag_swapped :
          xor_bytes (get_tag encrypt nonce_size tag_size nonce additional plaintext) s0 ≡ the_tag
      the_tag_swapped =
          xor_bytes_comm (get_tag encrypt nonce_size tag_size nonce additional plaintext) s0
            (omega (arith, length-s0, length-get_tag nonce additional plaintext))

      abbrev sealed : Bytes
      sealed = masked ++ take tag_size the_tag

      length-sealed : length sealed ≡ length plaintext + tag_size
      length-sealed = omega (
        arith,
        tag,
        length-append masked (take tag_size the_tag),
        as_long (counter encrypt nonce_size tag_size nonce 1) plaintext,
        length-take tag_size the_tag,
        length-the_tag,
      )

      seal-sealed :
          length plaintext ≤ max_uvarint (15 - nonce_size)
          → seal encrypt nonce_size tag_size xor_key_stream [] nonce plaintext additional
            ≡ done sealed
      unfolding seal
      seal-sealed fits = ground (
        arith,
        take-append masked the_tag (length plaintext) tag_size,
        as_long (counter encrypt nonce_size tag_size nonce 1) plaintext,
        size,
        fits,
      )

      open_ciphertext-sealed :
          (dst : Bytes)
          → 0 < length plaintext
          → length plaintext ≤ max_uvarint (15 - nonce_size)
          → open_ciphertext encrypt nonce_size tag_size xor_key_stream dst nonce sealed additional
            ≡ done (dst ++ plaintext)
      unfolding open_ciphertext
      open_ciphertext-sealed dst some_text fits =
          let n : length sealed - tag_size ≡ length plaintext = omega (arith, length-sealed) in
          let whole : length plaintext ≡ length masked =
            omega (arith, as_long (counter encrypt nonce_size tag_size nonce 1) plaintext) in
          let front : take (length plaintext) sealed ≡ masked =
            take_all masked (take tag_size the_tag) (length plaintext) whole in
          let back : drop (length plaintext) sealed ≡ take tag_size the_tag =
            drop_all masked (take tag_size the_tag) (length plaintext) whole in
          let right_size : (length nonce == nonce_size) ≡ true = ground (arith, size) in
          let longer : leb (length sealed) tag_size ≡ false =
            ground (arith, length-sealed, some_text) in
          let within : ltb (max_uvarint (15 - nonce_size)) (length plaintext) ≡ false =
            ground (arith, fits) in
          rw
            (
              right_size,
              longer,
              n,
              within,
              front,
              back,
              again (counter encrypt nonce_size tag_size nonce 1) plaintext,
              the_tag_swapped,
              (bytes_eq_iff (take tag_size the_tag) (take tag_size the_tag)).1 refl,
            )
            refl

      -- For a cipher on blocks of sixteen bytes and a key stream that is its own inverse and keeps the
      -- length, a nonce of the set size, at most 13, a tag of at most 16 bytes, and a text that is not
      -- empty nor longer than the nonce allows: Seal into an empty slice succeeds, and Open of what it
      -- returns appends the text to its `dst`.
      pub open_ciphertext-seal :
          (dst : Bytes)
          → 0 < length plaintext
          → length plaintext ≤ max_uvarint (15 - nonce_size)
          → (c : Bytes) × (seal encrypt nonce_size tag_size xor_key_stream [] nonce plaintext
                additional
              ≡ done c)
            × (open_ciphertext encrypt nonce_size tag_size xor_key_stream dst nonce c additional
                ≡ done (dst ++ plaintext))
      open_ciphertext-seal dst some_text fits =
          (sealed, seal-sealed fits, open_ciphertext-sealed dst some_text fits)

      -- For a cipher on blocks of sixteen bytes and a key stream that keeps the length, a nonce of the set
      -- size, at most 13, a tag of at most 16 bytes, and a text that is not longer than the nonce allows:
      -- Seal succeeds, and whatever it is given to append to, it returns only as many bytes as the text
      -- and the tag have.
      pub seal_cut :
          (dst : Bytes)
          → length plaintext ≤ max_uvarint (15 - nonce_size)
          → (c : Bytes) × (seal encrypt nonce_size tag_size xor_key_stream dst nonce plaintext
                additional
              ≡ done c)
            × (length c ≡ length plaintext + tag_size)
      unfolding seal
      seal_cut dst fits = (
        take (length plaintext + tag_size) (dst ++ (masked ++ the_tag)),
        ground (arith, size, fits),
        omega (
          arith,
          length-take (length plaintext + tag_size) (dst ++ (masked ++ the_tag)),
          length-append dst (masked ++ the_tag),
          length-append masked the_tag,
          length-the_tag,
          as_long (counter encrypt nonce_size tag_size nonce 1) plaintext,
          tag,
        ),
      )
