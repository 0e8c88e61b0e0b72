-- ===== src/MemoryFs/Content/Slices.antt =====
-- Byte strings that are cut, grown and overwritten.
use smb_mem_lib.Prelude.{
  ℕ, zero, suc, ◌+◌, ◌-◌, ◌≤◌, ◌<◌, ◌≡◌, refl, ap, [], ◌∷◌, ◌++◌, Bytes, length, take, drop,
  replicate, get_elem?, length-append, length-take, length-replicate, arith,
}
use smb_mem_lib.MemoryFs.Content.{grown, copy, overwrite}

pub length-grown : (size : ℕ) (c : Bytes) → length c ≤ size → length (grown size c) ≡ size
length-grown size c h =
    let zeros : Bytes = replicate (size - length c) 0 in
    omega (
      arith,
      length-append (take size c) zeros,
      length-take size c,
      length-replicate {A = ℕ} (size - length c) 0,
    )

length-copy : (dst src : Bytes) → length (copy dst src) ≡ length dst
length-copy [] src = refl
length-copy (d ∷ dst) [] = refl
length-copy (d ∷ dst) (b ∷ src) = ap suc (length-copy dst src)

pub length-overwrite :
    (c : Bytes) (offset : ℕ) (buf : Bytes) → length (overwrite c offset buf) ≡ length c
length-overwrite c zero buf = length-copy c buf
length-overwrite [] (suc offset) buf = refl
length-overwrite (x ∷ c) (suc offset) buf = ap suc (length-overwrite c offset buf)

read-copy : (dst src : Bytes) → length src ≤ length dst → take (length src) (copy dst src) ≡ src
read-copy [] [] h = refl
read-copy (d ∷ dst) [] h = refl
read-copy [] (b ∷ src) h = absurd (omega arith)
read-copy (d ∷ dst) (b ∷ src) h = ap (λ (t : Bytes). b ∷ t) (read-copy dst src (omega arith))

-- What was written is read back.
pub read-overwrite :
    (c : Bytes) (offset : ℕ) (buf : Bytes)
    → offset + length buf ≤ length c
    → take (length buf) (drop offset (overwrite c offset buf)) ≡ buf
read-overwrite c zero buf h = read-copy c buf (omega arith)
read-overwrite [] (suc offset) buf h = absurd (omega arith)
read-overwrite (x ∷ c) (suc offset) buf h = read-overwrite c offset buf (omega arith)

get_elem?-copy :
    (dst src : Bytes) (i : ℕ) → length src ≤ i → get_elem? (copy dst src) i ≡ get_elem? dst i
get_elem?-copy [] src i h = refl
get_elem?-copy (d ∷ dst) [] i h = refl
get_elem?-copy (d ∷ dst) (b ∷ src) zero h = absurd (omega arith)
get_elem?-copy (d ∷ dst) (b ∷ src) (suc i) h = get_elem?-copy dst src i (omega arith)

-- What lies before and behind it stays.
pub get_elem?-overwrite_before :
    (c : Bytes) (offset : ℕ) (buf : Bytes) (i : ℕ)
    → i < offset
    → get_elem? (overwrite c offset buf) i ≡ get_elem? c i
get_elem?-overwrite_before c zero buf i h = absurd (omega arith)
get_elem?-overwrite_before [] (suc offset) buf i h = refl
get_elem?-overwrite_before (x ∷ c) (suc offset) buf zero h = refl
get_elem?-overwrite_before (x ∷ c) (suc offset) buf (suc i) h =
    get_elem?-overwrite_before c offset buf i (omega arith)

pub get_elem?-overwrite_behind :
    (c : Bytes) (offset : ℕ) (buf : Bytes) (i : ℕ)
    → offset + length buf ≤ i
    → get_elem? (overwrite c offset buf) i ≡ get_elem? c i
get_elem?-overwrite_behind c zero buf i h = get_elem?-copy c buf i (omega arith)
get_elem?-overwrite_behind [] (suc offset) buf i h = refl
get_elem?-overwrite_behind (x ∷ c) (suc offset) buf zero h = absurd (omega arith)
get_elem?-overwrite_behind (x ∷ c) (suc offset) buf (suc i) h =
    get_elem?-overwrite_behind c offset buf i (omega arith)

get_elem?-take_append :
    (size : ℕ) (c rest : Bytes) (i : ℕ)
    → length c ≤ size
    → i < length c
    → get_elem? (take size c ++ rest) i ≡ get_elem? c i
get_elem?-take_append size [] rest i h k = absurd (omega arith)
get_elem?-take_append zero (x ∷ c) rest i h k = absurd (omega arith)
get_elem?-take_append (suc size) (x ∷ c) rest zero h k = refl
get_elem?-take_append (suc size) (x ∷ c) rest (suc i) h k =
    get_elem?-take_append size c rest i (omega arith) (omega arith)

-- Growing keeps the bytes that there were.
pub get_elem?-grown :
    (size : ℕ) (c : Bytes) (i : ℕ)
    → length c ≤ size
    → i < length c
    → get_elem? (grown size c) i ≡ get_elem? c i
get_elem?-grown size c i h k = get_elem?-take_append size c (replicate (size - length c) 0) i h k
