-- ===== src/Server/Files/Closed.antt =====
-- server/file_tree.go: the calls on a file that has been closed.
use smb_mem_lib.Prelude.{if_case, ℕ, ◌≡◌, refl, Bool, false, none, Bytes, arith}
use smb_mem_lib.Prelude.Assoc.{nat_key, load, delete, load-delete}
use smb_mem_lib.Smb2.Packet.{FileId}
use smb_mem_lib.Server.Files.{
  FileSystem, Open, Table, Answer, error, Handler, get_open, delete_open,
}
use smb_mem_lib.Server.Files.Calls.{
  is_invalid_file_id, on_open, close, read, write, Change, set_info,
}

module _ {S : Type 0} (vfs : FileSystem S) (f : FileId) where
  on_open-none :
      (k : Open → Handler S) (t : Table S)
      → get_open f.volatile t ≡ none
      → on_open f k t ≡ (error 0xC0000008, t)
  on_open-none k t h =
      if_case (λ (w : Answer × Table S). w ≡ (error 0xC0000008, t)) (is_invalid_file_id f) refl
        (rw h refl)

  get_open-close :
      (wants : Bool) (t : Table S)
      → is_invalid_file_id f ≡ false
      → get_open f.volatile (close vfs f wants t).1 ≡ none
  unfolding get_open close delete_open
  get_open-close wants t h =
      let gone : load f.volatile (delete f.volatile t.opens) ≡ none =
        ground (arith, load-delete f.volatile f.volatile t.opens) in
      rw h (if_case (λ (w : Answer × Table S). load f.volatile w.1.opens ≡ none) wants gone gone)

  -- After a CLOSE with a valid id, whatever was open, READ, WRITE and SET_INFO on that id are answered with
  -- STATUS_INVALID_HANDLE, and change neither the table nor the file system.
  pub closed_file_is_invalid :
      (wants : Bool) (len offset flags : ℕ) (bytes : Bytes) (c : Change) (t : Table S)
      → is_invalid_file_id f ≡ false
      → let u = (close vfs f wants t).1 in
        (read vfs f len offset u ≡ (error 0xC0000008, u))
        × (write vfs f bytes offset flags u ≡ (error 0xC0000008, u))
        × (set_info vfs f c u ≡ (error 0xC0000008, u))
  unfolding read write set_info
  closed_file_is_invalid wants len offset flags bytes c t h =
      let u = (close vfs f wants t).1 in
      let gone = get_open-close wants t h in
      (on_open-none _ u gone, on_open-none _ u gone, on_open-none _ u gone)
