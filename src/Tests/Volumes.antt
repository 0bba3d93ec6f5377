-- ===== src/Tests/Volumes.antt =====
-- Application/BootManager2D/src/FileSystems.c: tables of handles.
use uefi_game.Prelude.{
  ℕ, zero, suc, ◌≡◌, refl, arith, List, [], ◌∷◌, some, some_inj, Option, ok, Returns, replicate,
  if◌then◌else◌, ◌==◌, ◌/◌, ap, ◌∙◌,
}
use uefi_game.BootManager.Partitions.{
  Node, Partition, Located, is_hard_drive, zero_partition, locate_fs_partitions,
}
use uefi_game.BootManager.Partitions.Drives.{drive_of, drive_count}
use uefi_game.BootManager.Partitions.Table.{DrivesFirst, Table, locate_fs_partitions_lem}
use uefi_game.Tests.Icons.{efi}

-- Handle 1 is a hard drive partition, any other is none.
abbrev pub device_path : ℕ → Option (List Node)
device_path h = some (
    (if h == 1
      then record { type = 4; sub_type = 1; signature = 77 }
      else record { type = 1; sub_type = 1; signature = 0 })
    ∷ [])

abbrev zero_pool : ℕ → Option (List Partition)
zero_pool bytes = some (replicate (bytes / 16) zero_partition)

drive_first :
    locate_fs_partitions efi device_path zero_pool 0 (1 ∷ 2 ∷ [])
    ≡ ok (record {
      status = 0;
      partitions = record { handle = 1; guid = some 77 } ∷ [];
      partitions_count = 1;
    })
unfolding locate_fs_partitions
drive_first = refl

pub first_of_two : DrivesFirst efi device_path (1 ∷ 2 ∷ [])
unfolding is_hard_drive
first_of_two zero h g e d = omega arith
first_of_two (suc zero) h g e d =
    let none_there = ap (drive_of efi device_path) (some_inj e) ∙ d in absurd cc
first_of_two (suc (suc i)) h g e d = absurd cc

locate_fs_partitions_lem_example :
    Returns
      (λ (l : Located).
        (l.status ≡ 0)
        × (l.partitions_count ≡ drive_count efi device_path (1 ∷ 2 ∷ []))
        × Table efi device_path (1 ∷ 2 ∷ []) 2 l.partitions)
      (locate_fs_partitions efi device_path zero_pool 0 (1 ∷ 2 ∷ []))
unfolding locate_fs_partitions
locate_fs_partitions_lem_example =
    locate_fs_partitions_lem efi device_path (1 ∷ 2 ∷ []) zero_pool 0 refl (omega arith) refl
      first_of_two
