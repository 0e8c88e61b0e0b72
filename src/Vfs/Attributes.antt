-- ===== src/Vfs/Attributes.antt =====
-- vfs/attributes.go. A field that the mask of present fields lacks is `none`: a field's bit is set
-- with it and is never cleared.
use Prim.Native.Nat.{bit_and}
use smb_mem_lib.Prelude.{ℕ, Option, none, some}

pub data FileType : Type 0 where
  regular_file directory symlink block_device character_device fifo socket : FileType
  named_attribute_dir named_attribute other : FileType

pub record Attributes : Type 0 where
  pub change_id : Option ℕ
  pub device_number : Option ℕ
  pub file_handle : Option ℕ
  pub file_type : Option FileType
  pub inode_number : Option ℕ
  pub m_time : Option ℕ
  pub a_time : Option ℕ
  pub c_time : Option ℕ
  pub b_time : Option ℕ
  pub link_count : Option ℕ
  pub permissions : Option ℕ
  pub size_bytes : Option ℕ
  pub disk_size : Option ℕ
  pub uid : Option ℕ
  pub gid : Option ℕ
  pub unix_mode : Option ℕ

-- vfs.Attributes{}
abbrev pub no_attributes : Attributes
no_attributes = record {
  change_id = none;
  device_number = none;
  file_handle = none;
  file_type = none;
  inode_number = none;
  m_time = none;
  a_time = none;
  c_time = none;
  b_time = none;
  link_count = none;
  permissions = none;
  size_bytes = none;
  disk_size = none;
  uid = none;
  gid = none;
  unix_mode = none;
}

abbrev pub set_unix_mode : ℕ → Attributes → Attributes
set_unix_mode mode a = record a { unix_mode = some (bit_and mode 0o777) }
