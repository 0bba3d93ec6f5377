-- ===== src/BootManager/Partitions.antt =====
-- Application/BootManager2D/src/FileSystems.c, `LocateFSPartitions`. The firmware's tables are
-- parameters: the handles with a file system, and the device path of each, as the list of its nodes
-- up to the end node (no list for a null path). The output pointers are not null.
pub mod Drives
pub mod Table
pub mod Filled
use uefi_game.Prelude.{
  ℕ, zero, suc, ◌+◌, ◌*◌, Bool, ◌&&◌, ◌==◌, if◌then◌else◌, wrap, List, [], ◌∷◌, Option, none, some,
  Result, ok, ◌>>=◌, load, store, length, for_loop,
}
use uefi_game.Efi.{Efi}

pub record Node : Type 0 where
  pub type : ℕ
  pub sub_type : ℕ
  pub signature : ℕ

-- `guid` is `none` for the null pointer of a cleared entry.
pub record Partition : Type 0 where
  pub handle : ℕ
  pub guid : Option ℕ

abbrev pub zero_partition : Partition
zero_partition = record { handle = 0; guid = none }

pub record Located : Type 0 where
  pub status : ℕ
  pub partitions : List Partition
  pub partitions_count : ℕ

module _ (efi : Efi) (device_path : ℕ → Option (List Node)) where
  unfoldable pub is_hard_drive : Node → Bool
  is_hard_drive n = n.type == efi.media_device_path && n.sub_type == efi.media_harddrive_dp

  -- The nodes that a walk along the path of a handle meets.
  abbrev pub nodes : ℕ → List Node
  nodes handle = elim (device_path handle) [ none ↦ [] | some path ↦ path ]

  pub count_path : List Node → ℕ → ℕ
  count_path [] count = count
  count_path (n ∷ path) count = if is_hard_drive n then count + 1 else count_path path count

  pub count_handle : List ℕ → ℕ → ℕ → Result ℕ
  unfolding count_path
  count_handle handles i count = do handle ← load handles i; ok (count_path (nodes handle) count)

  pub fill_path : ℕ → ℕ → List Node → List Partition → Result (List Partition)
  fill_path i handle [] partitions = ok partitions
  fill_path i handle (n ∷ path) partitions = do
    written ←
        if is_hard_drive n
        then store partitions i (record { handle = handle; guid = some n.signature })
        else ok partitions
    fill_path i handle path written

  pub fill_handle : List ℕ → ℕ → List Partition → Result (List Partition)
  unfolding fill_path
  fill_handle handles i partitions = do
    handle ← load handles i
    fill_path i handle (nodes handle) partitions

  -- `zero_pool` is `AllocateZeroPool`.
  pub search_partitions : (ℕ → Option (List Partition)) → ℕ → List ℕ → Result Located
  unfolding for_loop count_handle fill_handle wrap is_hard_drive
  search_partitions zero_pool found handles = do
    count ← for_loop (length handles) 0 (count_handle handles) 0
    elim (zero_pool (wrap (count * 16))) [
      | none ↦
          ok (record {
            status = efi.efi_out_of_resources;
            partitions = [];
            partitions_count = count;
          })
      | some fresh ↦
          (for_loop (length handles) 0 (fill_handle handles) fresh >>= λ filled.
          ok (record { status = found; partitions = filled; partitions_count = count }))
    ]

  -- `found` is the status of `LocateHandleBuffer`.
  unfoldable pub locate_fs_partitions : (ℕ → Option (List Partition)) → ℕ → List ℕ → Result Located
  unfolding search_partitions
  locate_fs_partitions zero_pool found handles =
      if efi.efi_error found
      then ok (record { status = found; partitions = []; partitions_count = 0 })
      else search_partitions zero_pool found handles
