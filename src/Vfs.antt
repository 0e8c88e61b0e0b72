-- ===== src/Vfs.antt =====
-- vfs: what the server and a file system exchange. `Attributes` and `Permissions` have children.
pub mod Permissions
pub mod Modes
pub mod Attributes
use smb_mem_lib.Prelude.{ℕ, Bool, Option, Bytes}

-- vfs.OperationContext
pub record OperationContext : Type 0 where
  pub remote_addr : Bytes
  pub local_addr : Bytes
  pub session_id : ℕ
  pub username : Bytes

-- vfs.WriteInterceptResult, CreateInterceptResult and RenameInterceptResult, which are alike. An
-- error of the program's user is told apart by a number.
pub record InterceptResult : Type 0 where
  pub block : Bool
  pub error : Option ℕ

-- A callback is a function of what it is shown; a nil `ctx` is `none`.
abbrev pub WriteCallback : Type 0
WriteCallback = Option OperationContext → ℕ → Bytes → Bytes → ℕ → InterceptResult

abbrev pub CreateCallback : Type 0
CreateCallback = Option OperationContext → Bytes → Bool → ℕ → InterceptResult

abbrev pub RenameCallback : Type 0
RenameCallback = Option OperationContext → Bytes → Bytes → InterceptResult
