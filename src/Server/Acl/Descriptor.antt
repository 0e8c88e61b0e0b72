-- ===== src/Server/Acl/Descriptor.antt =====
-- server/acl.go: SecurityDescriptor and its decoder, with the answer of queryInfoSec.
use smb_mem_lib.Prelude.{
  ℕ, ◌+◌, ◌/◌, ◌%◌, ◌^◌, ◌<◌, ◌≤◌, ◌≡◌, refl, ap, ◌∙◌, sym, Bool, true, false, Option, none, some,
  List, [], ◌∷◌, ◌++◌, Bytes, length, length-append, drop, ltb, ◌==◌, if◌then◌else◌, arith,
}
use smb_mem_lib.Dtyp.{◌>>=◌, le_bytes, le_uint32, le_word}
use smb_mem_lib.Dtyp.Sid.{length-put_all}
use smb_mem_lib.Server.Acl.{
  Sid, Ace, nfs_sid, sid_size, aces_size, sid_bytes, ace_bytes, aces_bytes, le16, acl_bytes,
  tail_at, mode_of_acl, dacl_for, drop-length, length-ace_bytes, mode_of_acl-dacl_for,
}

-- SecurityDescriptor
pub record Descriptor : Type 0 where
  pub owner_sid : Option Sid
  pub group_sid : Option Sid
  pub sacl : Option (List Ace)
  pub dacl : Option (List Ace)

-- A part, if it is there: its size, its bytes, and its offset
abbrev sid_part_size : Option Sid → ℕ
sid_part_size none = 0
sid_part_size (some s) = sid_size s

abbrev sid_part : Option Sid → Bytes
sid_part none = []
sid_part (some s) = sid_bytes s

abbrev acl_part_size : Option (List Ace) → ℕ
acl_part_size none = 0
acl_part_size (some es) = 8 + aces_size es

abbrev acl_part : Option (List Ace) → Bytes
acl_part none = []
acl_part (some es) = acl_bytes es

abbrev offset_of : {A : Type 0} → Option A → ℕ → ℕ
offset_of none off = 0
offset_of (some x) off = off

abbrev bit_of : {A : Type 0} → Option A → ℕ → ℕ
bit_of none bit = 0
bit_of (some x) bit = bit

abbrev group_at : Descriptor → ℕ
group_at d = 20 + sid_part_size d.owner_sid

abbrev sacl_at : Descriptor → ℕ
sacl_at d = group_at d + sid_part_size d.group_sid

abbrev dacl_at : Descriptor → ℕ
dacl_at d = sacl_at d + acl_part_size d.sacl

-- Encode: the header, and the parts behind it
abbrev header_bytes : Descriptor → Bytes
header_bytes d =
    1 ∷ 0 ∷ le16 (0x8000 + bit_of d.sacl 0x10 + bit_of d.dacl 4)
    ++ (le_bytes (offset_of d.owner_sid 20)
        ++ (le_bytes (offset_of d.group_sid (group_at d))
            ++ (le_bytes (offset_of d.sacl (sacl_at d))
                ++ le_bytes (offset_of d.dacl (dacl_at d)))))

abbrev before : Descriptor → Bytes
before d = header_bytes d ++ (sid_part d.owner_sid ++ (sid_part d.group_sid ++ acl_part d.sacl))

unfoldable pub descriptor_bytes : Descriptor → Bytes
descriptor_bytes d = before d ++ acl_part d.dacl

-- SecurityDescriptorDecoder.Dacl: no list for the offset 0, and a panic beyond the end
unfoldable pub dacl_of : Bytes → Option (Option Bytes)
dacl_of b = do
  off ← le_uint32 (drop 16 b)
  if off == 0 then some none else (tail_at off b >>= λ rest. some (some rest))

-- setSecInfo on the bytes of a descriptor: the mode, where no access panics
abbrev pub mode_of_dacl : Option Bytes → Option (Option ℕ)
mode_of_dacl none = some none
mode_of_dacl (some acl) = mode_of_acl acl

unfoldable pub mode_of_descriptor : Bytes → Option (Option ℕ)
mode_of_descriptor b = dacl_of b >>= mode_of_dacl

-- The descriptor that queryInfoSec fills for the parts that are asked for; the mode is taken with
-- the bits of the file type in it
abbrev pub asks : ℕ → ℕ → Bool
asks bit info = info / bit % 2 == 1

unfoldable pub descriptor_for : ℕ → ℕ → ℕ → ℕ → Descriptor
descriptor_for info uid gid mode = record {
  owner_sid = if asks 1 info then some (nfs_sid 1 uid) else none;
  group_sid = if asks 2 info then some (nfs_sid 2 gid) else none;
  sacl = none;
  dacl = if asks 4 info then some (dacl_for uid gid mode) else none;
}

length-sid_part : (s : Option Sid) → length (sid_part s) ≡ sid_part_size s
length-sid_part none = refl
length-sid_part (some s) = ground (arith, length-put_all s.sub_authority [])

length-aces_bytes : (es : List Ace) → length (aces_bytes es) ≡ aces_size es
length-aces_bytes [] = refl
length-aces_bytes (a ∷ es) =
    ground
      (arith, length-append (ace_bytes a) (aces_bytes es), length-ace_bytes a, length-aces_bytes es)

length-acl_part : (es : Option (List Ace)) → length (acl_part es) ≡ acl_part_size es
unfolding acl_bytes
length-acl_part none = refl
length-acl_part (some es) = ground (arith, length-aces_bytes es)

length-before_dacl : (d : Descriptor) → length (before d) ≡ dacl_at d
length-before_dacl d = ground (
  arith,
  length-append (sid_part d.owner_sid) (sid_part d.group_sid ++ acl_part d.sacl),
  length-append (sid_part d.group_sid) (acl_part d.sacl),
  length-sid_part d.owner_sid,
  length-sid_part d.group_sid,
  length-acl_part d.sacl,
)

tail_at-append : (xs ys : Bytes) → tail_at (length xs) (xs ++ ys) ≡ some ys
tail_at-append xs ys =
    let fits : ltb (length (xs ++ ys)) (length xs) ≡ false = ground (arith, length-append xs ys) in
    rw (fits, drop-length xs ys) refl

dacl_of-tail :
    (b rest : Bytes) (off : ℕ)
    → le_uint32 (drop 16 b) ≡ some off
    → (off == 0) ≡ false
    → tail_at off b ≡ some rest
    → dacl_of b ≡ some (some rest)
unfolding dacl_of
dacl_of-tail b rest off read nonzero tail = rw (read, nonzero, tail) refl

dacl_offset :
    (d : Descriptor) (es : List Ace)
    → d.dacl ≡ some es
    → dacl_at d < 2 ^ 32
    → le_uint32 (drop 16 (descriptor_bytes d)) ≡ some (dacl_at d)
unfolding descriptor_bytes
dacl_offset d es has small =
    ap (λ p. le_uint32 (le_bytes (offset_of p (dacl_at d)) ++ [])) has
    ∙ ap some (le_word (dacl_at d) small)

tail_at-descriptor_bytes :
    (d : Descriptor) (es : List Ace)
    → d.dacl ≡ some es
    → tail_at (dacl_at d) (descriptor_bytes d) ≡ some (acl_bytes es)
unfolding descriptor_bytes
tail_at-descriptor_bytes d es has =
    ap (λ n. tail_at n (before d ++ acl_part d.dacl)) (sym (length-before_dacl d))
    ∙ tail_at-append (before d) (acl_part d.dacl)
    ∙ ap (λ p. some (acl_part p)) has

dacl_of-descriptor_bytes :
    (d : Descriptor) (es : List Ace)
    → d.dacl ≡ some es
    → dacl_at d < 2 ^ 32
    → dacl_of (descriptor_bytes d) ≡ some (some (acl_bytes es))
dacl_of-descriptor_bytes d es has small =
    dacl_of-tail (descriptor_bytes d) (acl_bytes es) (dacl_at d) (dacl_offset d es has small)
      (ground arith) (tail_at-descriptor_bytes d es has)

part_size_if : (b : Bool) (s : Sid) → sid_part_size (if b then some s else none) ≤ sid_size s
part_size_if true s = omega arith
part_size_if false s = omega arith

dacl_at-descriptor_for :
    (info uid gid mode : ℕ) → dacl_at (descriptor_for info uid gid mode) < 2 ^ 32
unfolding descriptor_for
dacl_at-descriptor_for info uid gid mode =
    ground (
      arith,
      part_size_if (asks 1 info) (nfs_sid 1 uid),
      part_size_if (asks 2 info) (nfs_sid 2 gid),
    )

-- When the access control list is asked for, with the owner and the group or without them, the
-- mode is read back from the bytes of the descriptor that queryInfoSec makes, where the owner,
-- the group and the mode have 32 bits.
pub mode_of_descriptor-descriptor_for :
    (info uid gid mode : ℕ)
    → asks 4 info ≡ true
    → uid < 2 ^ 32
    → gid < 2 ^ 32
    → mode < 2 ^ 32
    → mode_of_descriptor (descriptor_bytes (descriptor_for info uid gid mode)) ≡ some (some mode)
unfolding mode_of_descriptor descriptor_for
mode_of_descriptor-descriptor_for info uid gid mode asked u g m =
    let d = descriptor_for info uid gid mode in
    let list : d.dacl ≡ some (dacl_for uid gid mode) = rw asked refl in
    let small = dacl_at-descriptor_for info uid gid mode in
    rw (dacl_of-descriptor_bytes d (dacl_for uid gid mode) list small)
      (mode_of_acl-dacl_for uid gid mode u g m)
