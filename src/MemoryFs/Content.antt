-- ===== src/MemoryFs/Content.antt =====
-- The bytes of a file: Read, Write and Truncate.
pub mod Slices
pub mod Writes
pub mod Reads
pub mod Truncates
use Prim.Native.Nat.{min}
use smb_mem_lib.Prelude.{
  ℕ, zero, suc, ◌+◌, ◌-◌, ◌^◌, ◌∷◌, Bool, true, false, Option, none, some, ◌++◌, [], Bytes, length,
  take, drop, replicate, ltb, leb, ◌==◌, if◌then◌else◌,
}
use smb_mem_lib.Prelude.Words.{add64}
use smb_mem_lib.MemoryFs.Types.{
  cannot_read_directory, eof, cannot_write_to_directory, cannot_truncate_directory, MemoryNode,
  MemoryFs, OpenMemoryFile, Env, Op, ok, err, panic, ◌>>=◌, ◌>>◌, return, fail, crash, gets, modify,
  set_node, Result,
}
use smb_mem_lib.MemoryFs.Handles.{load_open, judge}
use smb_mem_lib.MemoryFs.Ghost.{get_operation_context}

-- Read, with the length of the buffer; the result is the bytes that it puts there. The slice
-- `node.content[offset:]` panics beyond the length of the content.
abbrev pub read_node : MemoryNode → ℕ → ℕ → Result Bytes
read_node n len offset =
    if n.is_dir
    then err cannot_read_directory
    else if leb n.size offset
    then err eof
    else if ltb (length n.content) offset
    then panic
    else if length (take len (drop offset n.content)) == 0
    then err eof
    else ok (take len (drop offset n.content))

unfoldable pub read : ℕ → ℕ → ℕ → Op Bytes
read handle len offset = load_open handle >>= λ f s. (read_node (s.nodes f.node) len offset, s)

-- make([]byte, size) with a copy of the content; a length beyond int panics, and that memory may run
-- out before is not modelled.
abbrev pub grown : ℕ → Bytes → Bytes
grown size content = take size content ++ replicate (size - length content) 0

-- copy(dst, src)
abbrev pub copy : Bytes → Bytes → Bytes
copy [] src = []
copy (d ∷ dst) [] = d ∷ dst
copy (d ∷ dst) (b ∷ src) = b ∷ copy dst src

-- copy(content[offset:], buf), for an offset within the content
abbrev pub overwrite : Bytes → ℕ → Bytes → Bytes
overwrite content zero buf = copy content buf
overwrite [] (suc offset) buf = []
overwrite (b ∷ content) (suc offset) buf = b ∷ overwrite content offset buf

-- The end of Write, on a node whose content is long enough or cannot be made longer.
abbrev pub put_bytes : Env → ℕ → MemoryNode → Bytes → ℕ → Op ℕ
put_bytes env p n buf offset fs =
    if ltb (length n.content) offset then (panic, set_node p n fs) else (
      ok (min (length n.content - offset) (length buf)),
      set_node p (record n { content = overwrite n.content offset buf; mtime = env.now }) fs,
    )

-- Write, past the callback and the honeypot mode.
unfoldable pub write_node : Env → ℕ → Bytes → ℕ → Op ℕ
write_node env p buf offset fs =
    let n = fs.nodes p in
    let end = add64 offset (length buf) in
    if n.is_dir
    then (err cannot_write_to_directory, fs)
    else if ltb n.size end
    then (if leb (2 ^ 63) end
        then (panic, fs)
        else put_bytes env p (record n { content = grown end n.content; spare = []; size = end })
            buf offset fs)
    else put_bytes env p n buf offset fs

-- Write in the honeypot mode: the size grows, the content stays.
unfoldable pub discard_write : Env → ℕ → Bytes → ℕ → Op ℕ
discard_write env p buf offset fs =
    let n = fs.nodes p in
    let end = add64 offset (length buf) in
    (
      ok (length buf),
      set_node p (record n { size = if ltb n.size end then end else n.size; mtime = env.now }) fs,
    )

abbrev pub ask_write : Env → ℕ → Bytes → Bytes → ℕ → Op Bool
ask_write env handle path buf offset fs = elim fs.write_callback [
  | none ↦ (ok false, fs)
  | some callback ↦
      let ctx = get_operation_context env fs in judge ctx (callback ctx handle path buf offset) fs
]

-- Write
unfoldable pub write : Env → ℕ → Bytes → ℕ → Op ℕ
unfolding write_node discard_write
write env handle buf offset = do
  f ← load_open handle
  blocked ← ask_write env handle f.path buf offset
  discard ← gets (λ s. s.discard_writes)
  if blocked
      then return (length buf)
      else if discard
      then discard_write env f.node buf offset
      else write_node env f.node buf offset

-- Truncate on a node. `node.content[:size]` reaches up to the capacity of the slice, and panics
-- beyond it.
unfoldable pub truncate_node : Env → ℕ → ℕ → Op (Unit {0})
truncate_node env p size fs =
    let n = fs.nodes p in
    let whole = n.content ++ n.spare in
    if n.is_dir
    then (err cannot_truncate_directory, fs)
    else if ltb size n.size
    then (if ltb (length whole) size then (panic, fs) else (
      ok tt,
      set_node p
          (record n {
            content = take size whole;
            spare = drop size whole;
            size = size;
            mtime = env.now;
          })
          fs,
    ))
    else if ltb n.size size
    then (if leb (2 ^ 63) size then (panic, fs) else (
      ok tt,
      set_node p
          (record n { content = grown size n.content; spare = []; size = size; mtime = env.now })
          fs,
    ))
    else (ok tt, set_node p (record n { mtime = env.now }) fs)

-- Truncate
unfoldable pub truncate : Env → ℕ → ℕ → Op (Unit {0})
unfolding truncate_node
truncate env handle size = do
  discard ← gets (λ s. s.discard_writes)
  if discard then return tt else do f ← load_open handle; truncate_node env f.node size
