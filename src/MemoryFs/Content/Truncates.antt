-- ===== src/MemoryFs/Content/Truncates.antt =====
-- What Truncate leaves of the content outside the honeypot mode.
use smb_mem_lib.Prelude.{
  ℕ, zero, suc, ◌-◌, ◌^◌, ◌≤◌, ◌<◌, ◌≡◌, refl, ap, ◌++◌, [], ◌∷◌, false, some, Bytes, length, take,
  length-append, replicate, arith,
}
use smb_mem_lib.Prelude.Assoc.{nat_key, load}
use smb_mem_lib.MemoryFs.Types.{MemoryFs, OpenMemoryFile, Env, ok}
use smb_mem_lib.MemoryFs.Content.{truncate_node, truncate}

take_within :
    (n : ℕ) (a b : Bytes) → n ≤ length a → take n (a ++ b) ≡ take n a ++ replicate (n - length a) 0
take_within zero a b h = let e : 0 - length a ≡ 0 = omega arith in rw e refl
take_within (suc n) [] b h = ground (arith, h)
take_within (suc n) (x ∷ a) b h =
    let e : suc n - suc (length a) ≡ n - length a = omega arith in
    rw e (ap (λ (t : Bytes). x ∷ t) (take_within n a b (omega (arith, h))))

take_full : (n : ℕ) (a : Bytes) → n ≡ length a → a ≡ take n a ++ replicate (n - length a) 0
take_full zero [] h = refl
take_full zero (x ∷ a) h = ground (arith, h)
take_full (suc n) [] h = ground (arith, h)
take_full (suc n) (x ∷ a) h =
    let e : suc n - suc (length a) ≡ n - length a = omega arith in
    rw e (ap (λ (t : Bytes). x ∷ t) (take_full n a (omega (arith, h))))

-- Outside the honeypot mode, on an open file whose content is as long as its size, and for a size below
-- 2 ^ 63: Truncate succeeds, the file has the new size, and its content is the old one cut to that size
-- or filled up with zeros to it.
truncate_lem :
    (env : Env) (fs : MemoryFs) (h : ℕ) (f : OpenMemoryFile) (size : ℕ)
    → fs.discard_writes ≡ false
    → load h fs.open_files ≡ some f
    → (fs.nodes f.node).is_dir ≡ false
    → length (fs.nodes f.node).content ≡ (fs.nodes f.node).size
    → size < 2 ^ 63
    → ((truncate env h size fs).0 ≡ ok tt)
      × (((truncate env h size fs).1.nodes f.node).size ≡ size)
      × (((truncate env h size fs).1.nodes f.node).content
          ≡ take size (fs.nodes f.node).content
            ++ replicate (size - length (fs.nodes f.node).content) 0)
unfolding truncate truncate_node
truncate_lem env fs h f size kept opened file backed small =
    let n = fs.nodes f.node in
    (
      ground (arith, kept, opened, file, backed, small, length-append n.content n.spare),
      ground (arith, kept, opened, file, backed, small, length-append n.content n.spare),
      ground (
        arith,
        kept,
        opened,
        file,
        backed,
        small,
        length-append n.content n.spare,
        take_within size n.content n.spare,
        take_full size n.content,
      ),
    )
