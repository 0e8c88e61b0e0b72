-- ===== src/Server/Files/Tests.antt =====
-- The handlers of files at a small file system.
use smb_mem_lib.Prelude.{
  ◌≡◌, refl, true, false, none, some, [], ◌∷◌, Bytes, bytes_eq, length, if◌then◌else◌, arith,
}
use smb_mem_lib.Vfs.Attributes.{regular_file, Attributes, no_attributes}
use smb_mem_lib.Smb2.Packet.{FileId}
use smb_mem_lib.Server.Files.{FileSystem, Table, error, CreateCall}
use smb_mem_lib.Server.Files.Create.{target, create}
use smb_mem_lib.Server.Files.Calls.{rename_to, close, read, write, set_info}
use smb_mem_lib.Server.Files.Laws.{IsEntered, is_found, create_lem}
use smb_mem_lib.Server.Files.Closed.{closed_file_is_invalid}

abbrev plain : Attributes
plain = record no_attributes { file_type = some regular_file; inode_number = some 4 }

-- A file system of one file, "/a", whose content is its state; opening another makes nothing.
abbrev one_file : FileSystem Bytes
one_file = record {
  lookup = λ name s. ((if bytes_eq name (b'/' ∷ b'a' ∷ []) then some plain else none), s);
  mkdir = λ name s. (false, s);
  open_file = λ name flags s. (some 9, s);
  open_dir = λ name s. (none, s);
  close = λ h s. s;
  get_attr = λ h s. (some plain, s);
  flush = λ h s. s;
  read = λ h len offset s. ((s, none), s);
  write = λ h bs offset flags s. ((length bs, true), bs);
  truncate = λ h n s. [];
  unlink = λ h s. (false, s);
  rename = λ h name replaces s. (false, s);
  get_xattr = λ h key len s. (none, s);
  set_xattr = λ h key bs s. (false, s);
  remove_xattr = λ h key s. (false, s);
}

-- FILE_OVERWRITE_IF of "\a"
abbrev overwrites : CreateCall
overwrites = record {
  name = b'\\' ∷ b'a' ∷ [];
  disposition = 5;
  options = 0;
  access = 2;
  oplock_level = 8;
  is_persistent = false;
}

abbrev table : Table Bytes
table = record { fs = 1 ∷ 2 ∷ []; opens = [] }

create_lem_example :
    IsEntered overwrites
      (is_found (one_file.lookup (target overwrites) table.fs).0)
      table
      (create one_file overwrites table).0
      (create one_file overwrites table).1
create_lem_example = create_lem one_file overwrites table (omega arith)

abbrev handle : FileId
handle = record { persistent = 4; volatile = 9 }

closed_file_is_invalid_example :
    let u = (close one_file handle true (create one_file overwrites table).1).1 in
    (read one_file handle 2 0 u ≡ (error 0xC0000008, u))
    × (write one_file handle (7 ∷ []) 0 0 u ≡ (error 0xC0000008, u))
    × (set_info one_file handle (rename_to (b'b' ∷ []) 0) u ≡ (error 0xC0000008, u))
closed_file_is_invalid_example =
    closed_file_is_invalid one_file handle true 2 0 0 (7 ∷ []) (rename_to (b'b' ∷ []) 0)
      (create one_file overwrites table).1 refl
