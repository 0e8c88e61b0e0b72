-- ===== src/Vfs/Permissions.antt =====
-- vfs/permissions.go. A mode and a set of permissions are bit masks.
use Prim.Native.Nat.{bit_and, bit_or}
use smb_mem_lib.Prelude.{ℕ, ◌==◌, if◌then◌else◌}

abbrev pub permissions_read : ℕ
permissions_read = 1

abbrev pub permissions_write : ℕ
permissions_write = 2

abbrev pub permissions_execute : ℕ
permissions_execute = 4

-- `p |= flag`, if `m & mask != 0`
abbrev or_if : ℕ → ℕ → ℕ → ℕ → ℕ
or_if m mask flag p = if bit_and m mask == 0 then p else bit_or p flag

unfoldable pub new_permissions_from_mode : ℕ → ℕ
new_permissions_from_mode m =
    or_if m 0o111 permissions_execute
      (or_if m 0o222 permissions_write (or_if m 0o444 permissions_read 0))

unfoldable pub to_mode : ℕ → ℕ
to_mode p =
    or_if p permissions_execute 0o111
      (or_if p permissions_write 0o200 (or_if p permissions_read 0o444 0))
