-- ===== src/Server/Files/Calls.antt =====
-- server/file_tree.go: close, flush, read, write and setInfo, on the file id of the request or of its
-- compound context, behind the decoders.
use smb_mem_lib.Prelude.{
  ℕ, ◌-◌, ◌%◌, ◌^◌, Bool, true, ◌&&◌, ◌||◌, not, Option, none, some, [], ◌∷◌, Bytes, bytes_eq,
  length, replicate, ◌==◌, if◌then◌else◌,
}
use smb_mem_lib.Vfs.Attributes.{Attributes}
use smb_mem_lib.Smb2.Packet.{FileId}
use smb_mem_lib.Server.Files.Create.{afp_info}
use smb_mem_lib.Server.Files.{
  Fault, end_of_file, failed, FileSystem, Open, Answer, error, closed_with, flushed, payload,
  written, info_set, Handler, get_open, delete_open, to_slashes,
}

-- IsInvalidFileId
abbrev pub is_invalid_file_id : FileId → Bool
is_invalid_file_id f = f.persistent == 2 ^ 64 - 1 && f.volatile == 2 ^ 64 - 1

abbrev with_open : {S : Type 0} → Option Open → (Open → Handler S) → Handler S
with_open none k t = (error 0xC0000008, t)
with_open (some o) k t = k o t

-- The beginning of read, write and setInfo
abbrev pub on_open : {S : Type 0} → FileId → (Open → Handler S) → Handler S
on_open f k t =
    if is_invalid_file_id f then (error 0xC0000008, t) else with_open (get_open f.volatile t) k t

-- The end of readEA: AfpInfo stands for a missing AFP_AfpInfo.
abbrev afp_bytes : Bytes
afp_bytes = 65 ∷ 70 ∷ 80 ∷ 95 ∷ 0 ∷ 1 ∷ 0 ∷ 0 ∷ replicate 52 0

abbrev missing_ea : Bytes → ℕ → ℕ → Answer
missing_ea key len status =
    if bytes_eq key afp_info && len == 60 then payload afp_bytes else error status

abbrev pub of_ea : Bytes → ℕ → Option Bytes → Answer
of_ea key len none = missing_ea key len 0xC0000022
of_ea key len (some []) = missing_ea key len 0xC0000011
of_ea key len (some (b ∷ bs)) = payload (b ∷ bs)

-- What setInfo is asked for, by its class and buffer; basic information and security are left out.
pub data Change : Type 0 where
  end_of_file_at : ℕ → Change
  disposition : Change
  rename_to : Bytes → ℕ → Change
  allocation : Change
  unsupported : Change

module _ {S : Type 0} (vfs : FileSystem S) where
  -- close, with whether the flag for attributes is set
  unfoldable pub close : FileId → Bool → Handler S
  close f wants t =
      let h = f.volatile in
      if is_invalid_file_id f
      then (error 0xC0000008, t)
      else if wants
      then (let (a, s) = vfs.get_attr h t.fs in
          let shown : Option Attributes = elim (get_open h t) [ none ↦ none | some o ↦ a ] in
          (closed_with shown, delete_open h (record t { fs = vfs.close h s })))
      else (closed_with none, delete_open h (record t { fs = vfs.close h t.fs }))

  unfoldable pub flush : FileId → Handler S
  flush f t =
      if is_invalid_file_id f
      then (error 0xC0000008, t)
      else (flushed, record t { fs = vfs.flush f.volatile t.fs })

  -- readImpl and readEA
  abbrev of_read : Bytes × Option Fault → Answer
  of_read ([], some end_of_file) = error 0xC0000011
  of_read ([], some failed) = error 0xC0000022
  of_read ([], none) = payload []
  of_read (b ∷ bs, fault) = payload (b ∷ bs)

  abbrev read_open : FileId → ℕ → ℕ → Open → Handler S
  read_open f len offset o t =
      if o.is_ea
      then (let (v, s) = vfs.get_xattr f.volatile o.ea_key len t.fs in
          (of_ea o.ea_key len v, record t { fs = s }))
      else (let (got, s) = vfs.read f.volatile len offset t.fs in
          (of_read got, record t { fs = s }))

  -- read, up to the last answer: without a compound context STATUS_PENDING is sent before
  unfoldable pub read : FileId → ℕ → ℕ → Handler S
  read f len offset = on_open f (read_open f len offset)

  -- writeImpl; the error of Setxattr is not looked at.
  abbrev of_write : ℕ × Bool → Answer
  of_write (n, ok) = if not ok || n == 0 then error 0xC0000185 else written (n % 2 ^ 32)

  abbrev write_open : FileId → Bytes → ℕ → ℕ → Open → Handler S
  write_open f bytes offset flags o t =
      if o.is_ea
      then (
        of_write (length bytes, true),
        record t { fs = (vfs.set_xattr f.volatile o.ea_key bytes t.fs).1 },
      )
      else (let (done, s) = vfs.write f.volatile bytes offset flags t.fs in
          (of_write done, record t { fs = s }))

  unfoldable pub write : FileId → Bytes → ℕ → ℕ → Handler S
  write f bytes offset flags = on_open f (write_open f bytes offset flags)

  -- setInfo
  abbrev done_or : ℕ → Bool × S → Handler S
  done_or status (ok, s) t = ((if ok then info_set else error status), record t { fs = s })

  abbrev change : FileId → Change → Open → Handler S
  change f (end_of_file_at n) o t =
      if o.is_ea then (error 0, t) else (info_set, record t { fs = vfs.truncate f.volatile n t.fs })
  change f disposition o t =
      if o.is_ea
      then done_or 0xC0000225 (vfs.remove_xattr f.volatile o.ea_key t.fs) t
      else done_or 0xC00000BB (vfs.unlink f.volatile t.fs) t
  change f (rename_to name replaces) o t =
      if o.is_ea
      then (error 0xC00000BB, t)
      else done_or 0xC0000022 (vfs.rename f.volatile (to_slashes name) replaces t.fs) t
  change f allocation o t = (info_set, t)
  change f unsupported o t = (error 0xC00000BB, t)

  unfoldable pub set_info : FileId → Change → Handler S
  set_info f c = on_open f (change f c)
