-- ===== src/Vfs/Modes.antt =====
-- ToMode and NewPermissionsFromMode of vfs/permissions.go together.
use smb_mem_lib.Prelude.{ℕ, ◌<◌, ◌≡◌, refl, zero, suc, arith}
use smb_mem_lib.Vfs.Permissions.{new_permissions_from_mode, to_mode}

-- The mode of a set of the three permissions has this set of permissions.
new_permissions_from_mode-to_mode : (p : ℕ) → p < 8 → new_permissions_from_mode (to_mode p) ≡ p
unfolding new_permissions_from_mode to_mode
new_permissions_from_mode-to_mode zero h = refl
new_permissions_from_mode-to_mode (suc zero) h = refl
new_permissions_from_mode-to_mode (suc (suc zero)) h = refl
new_permissions_from_mode-to_mode (suc (suc (suc zero))) h = refl
new_permissions_from_mode-to_mode (suc (suc (suc (suc zero)))) h = refl
new_permissions_from_mode-to_mode (suc (suc (suc (suc (suc zero))))) h = refl
new_permissions_from_mode-to_mode (suc (suc (suc (suc (suc (suc zero)))))) h = refl
new_permissions_from_mode-to_mode (suc (suc (suc (suc (suc (suc (suc zero))))))) h = refl
new_permissions_from_mode-to_mode (suc (suc (suc (suc (suc (suc (suc (suc p)))))))) h =
    ground (arith, h)
