-- ===== src/MemoryFs/Content/Writes.antt =====
-- Write of memoryshare/memory_fs.go into a file whose content is as long as its size.
use Prim.Native.Nat.{max}
use smb_mem_lib.Prelude.{
  ℕ, ◌+◌, ◌^◌, ◌≤◌, ◌<◌, ◌≡◌, ◌≢◌, refl, ◌∙◌, ◌⊎◌, false, none, some, Bytes, length, [], get_elem?,
  arith, ltb, inl, inr, if◌then◌else◌,
}
use smb_mem_lib.Prelude.Assoc.{nat_key, load}
use smb_mem_lib.MemoryFs.Types.{MemoryNode, MemoryFs, OpenMemoryFile, Env, ok, set_node}
use smb_mem_lib.MemoryFs.Content.{read_node, read, grown, overwrite, write_node, write}
use smb_mem_lib.MemoryFs.Content.Slices.{
  length-grown, length-overwrite, read-overwrite, get_elem?-overwrite_before,
  get_elem?-overwrite_behind, get_elem?-grown,
}

-- The content on which the bytes are put.
abbrev base_of : MemoryNode → ℕ → Bytes
base_of n end = if ltb n.size end then grown end n.content else n.content

-- The node after the write.
abbrev pub written : Env → MemoryNode → Bytes → ℕ → MemoryNode
written env n buf offset = record n {
  content = overwrite (base_of n (offset + length buf)) offset buf;
  spare = if ltb n.size (offset + length buf) then [] else n.spare;
  size = max n.size (offset + length buf);
  mtime = env.now;
}

module _ (env : Env) (fs : MemoryFs) (p : ℕ) (buf : Bytes) (offset : ℕ)
    (file : (fs.nodes p).is_dir ≡ false) (backed : length (fs.nodes p).content ≡ (fs.nodes p).size)
    (fits : offset + length buf < 2 ^ 63) where
  abbrev end : ℕ
  end = offset + length buf

  abbrev target : Bytes
  target = base_of (fs.nodes p) end

  length-target : length target ≡ max (fs.nodes p).size end
  length-target = ground (arith, length-grown end (fs.nodes p).content)

  pub write_node-written :
      write_node env p buf offset fs
      ≡ (ok (length buf), set_node p (written env (fs.nodes p) buf offset) fs)
  unfolding write_node
  write_node-written = ground (arith, length-grown end (fs.nodes p).content)

  get_elem?-target :
      (i : ℕ) → i < (fs.nodes p).size → get_elem? target i ≡ get_elem? (fs.nodes p).content i
  get_elem?-target i h = ground (arith, get_elem?-grown end (fs.nodes p).content i)

  -- The bytes that a write does not reach stay.
  pub get_elem?-written :
      (i : ℕ)
      → i < (fs.nodes p).size
      → (i < offset) ⊎ (end ≤ i)
      → get_elem? (written env (fs.nodes p) buf offset).content i ≡ get_elem? (fs.nodes p).content i
  get_elem?-written i h (inl a) =
      get_elem?-overwrite_before target offset buf i a ∙ get_elem?-target i h
  get_elem?-written i h (inr b) =
      get_elem?-overwrite_behind target offset buf i b ∙ get_elem?-target i h

  -- The node is as long as its size again, and the bytes are read back.
  pub length-written :
      length (written env (fs.nodes p) buf offset).content ≡ max (fs.nodes p).size end
  length-written = length-overwrite target offset buf ∙ length-target

  pub read-written :
      0 < length buf → read_node (written env (fs.nodes p) buf offset) (length buf) offset ≡ ok buf
  read-written h = ground (arith, length-written, read-overwrite target offset buf, length-target)

module _ (env : Env) (fs : MemoryFs) (handle : ℕ) (f : OpenMemoryFile) (buf : Bytes) (offset : ℕ)
    (opened : load handle fs.open_files ≡ some f) (no_callback : fs.write_callback ≡ none)
    (kept : fs.discard_writes ≡ false) (file : (fs.nodes f.node).is_dir ≡ false)
    (backed : length (fs.nodes f.node).content ≡ (fs.nodes f.node).size)
    (fits : offset + length buf < 2 ^ 63) where
  write-written :
      write env handle buf offset fs
      ≡ (ok (length buf), set_node f.node (written env (fs.nodes f.node) buf offset) fs)
  unfolding write
  write-written = ground (arith, write_node-written env fs f.node buf offset file backed fits)

  -- Outside the honeypot mode and without a callback, on an open file whose content is as long as its
  -- size, for at least one byte and with the end of the write below 2 ^ 63: Write returns the number of
  -- bytes given, Read at the same place then returns those bytes, the size is the larger of the old
  -- one and the end of the write, and the content is as long.
  pub read-write :
      0 < length buf
      → ((write env handle buf offset fs).0 ≡ ok (length buf))
        × ((read handle (length buf) offset (write env handle buf offset fs).1).0 ≡ ok buf)
        × (((write env handle buf offset fs).1.nodes f.node).size
            ≡ max (fs.nodes f.node).size (offset + length buf))
        × (length ((write env handle buf offset fs).1.nodes f.node).content
            ≡ ((write env handle buf offset fs).1.nodes f.node).size)
  unfolding read
  read-write h = rw write-written (
    refl,
    ground (arith, read-written env fs f.node buf offset file backed fits h),
    ground arith,
    ground (arith, length-written env fs f.node buf offset file backed fits),
  )

  -- Outside the honeypot mode and without a callback, on an open file whose content is as long as its
  -- size, and with the end of the write below 2 ^ 63: after a Write each byte of the file before or
  -- behind the written ones is as it was, and so is any other node.
  pub write_elsewhere :
      (i q : ℕ)
      → i < (fs.nodes f.node).size
      → (i < offset) ⊎ (offset + length buf ≤ i)
      → q ≢ f.node
      → (get_elem? ((write env handle buf offset fs).1.nodes f.node).content i
          ≡ get_elem? (fs.nodes f.node).content i)
        × ((write env handle buf offset fs).1.nodes q ≡ fs.nodes q)
  write_elsewhere i q h k ne = rw write-written (
    ground (arith, get_elem?-written env fs f.node buf offset file backed fits i h k),
    ground arith,
  )
