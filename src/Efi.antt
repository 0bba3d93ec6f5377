-- ===== src/Efi.antt =====
-- The constants of the UEFI headers that the programs test or return, as a parameter.
use uefi_game.Prelude.{ℕ, Bool}

pub record Efi : Type 0 where
  pub efi_error : ℕ → Bool
  pub efi_success : ℕ
  pub efi_invalid_parameter : ℕ
  pub efi_out_of_resources : ℕ
  pub efi_unsupported : ℕ
  pub media_device_path : ℕ
  pub media_harddrive_dp : ℕ
