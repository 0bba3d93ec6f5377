-- ===== src/BootManager/Boot/First.antt =====
-- `BootEntry` starts from the first partition with the GUID of the entry.
use uefi_game.Prelude.{
  ℕ, ◌+◌, ◌≡◌, refl, inl, inr, Bool, false, Option, none, some, List, [], ◌∷◌, ◌==◌, if◌then◌else◌,
  Bool-cases, length, drop, Result, ok, drop-cons,
}
use uefi_game.BootManager.Entries.{BootEntry}
use uefi_game.BootManager.Partitions.{Partition}
use uefi_game.BootManager.Boot.{Platform, Booted, unstarted, start_from, try_partitions, boot_entry}

-- The first partition with this GUID.
abbrev pub has_guid : ℕ → Option ℕ → Bool
has_guid guid none = false
has_guid guid (some g) = guid == g

abbrev pub first_with : ℕ → List Partition → Option Partition
first_with guid [] = none
first_with guid (q ∷ qs) = if has_guid guid q.guid then some q else first_with guid qs

-- Every entry of the table is filled.
abbrev pub AreFilled : List Partition → Type 0
AreFilled [] = Unit
AreFilled (q ∷ qs) = ((g : ℕ) × (q.guid ≡ some g)) × AreFilled qs

module _ (p : Platform) where
  abbrev pub start_first : BootEntry → Option Partition → Result Booted
  start_first entry none = ok (unstarted p.efi.efi_success)
  start_first entry (some q) = start_from p entry q

  try_lem :
      (entry : BootEntry) (all qs : List Partition) (i : ℕ)
      → drop i all ≡ qs
      → AreFilled qs
      → try_partitions p entry all (length qs) i
        ≡ start_first entry (first_with (p.str_to_guid entry.volume_guid) qs)
  unfolding try_partitions
  try_lem entry all [] i e h = refl
  try_lem entry all (q ∷ qs) i e h =
      let r = drop-cons all i e in
      let (g, f) = h.0 in
      elim (Bool-cases (p.str_to_guid entry.volume_guid == g)) [
        | inl same ↦ rw (r.0, f, same)
        | inr other ↦ rw (r.0, f, other) (try_lem entry all qs (i + 1) r.1 h.1)
      ]

  -- On a table without a cleared entry `BootEntry` does what it does for the first partition that
  -- has the GUID of the entry: it loads the image from there and starts it, unless that fails. If
  -- there is none it starts nothing and returns `EFI_SUCCESS`.
  pub boot_entry_lem :
      (entry : BootEntry) (partitions : List Partition)
      → AreFilled partitions
      → boot_entry p entry partitions (length partitions)
        ≡ start_first entry (first_with (p.str_to_guid entry.volume_guid) partitions)
  unfolding boot_entry
  boot_entry_lem entry partitions h = try_lem entry partitions partitions 0 refl h
