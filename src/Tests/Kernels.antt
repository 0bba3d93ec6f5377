-- ===== src/Tests/Kernels.antt =====
-- Application/XV6/xv6.c on a file with one segment.
use uefi_game.Prelude.{
  ℕ, ◌+◌, ◌-◌, ◌*◌, ◌≤◌, ◌<◌, ◌≡◌, refl, ◌⊎◌, inl, inr, true, false, ◌&&◌, some, arith, ltb, leb,
  ◌==◌, if◌then◌else◌, ok, Returns,
}
use uefi_game.Kernel.{Memory, load_kernel, header_at}
use uefi_game.Kernel.Segments.{AreCopies, IsLoadable}
use uefi_game.Kernel.Loading.{IsTable}
use uefi_game.Kernel.File.{KernelFirmware, LoadedFile, load_file}
use uefi_game.Kernel.File.Steps.{Outcome, load_file_lem}
use uefi_game.Kernel.Pages.{kernel_pages}
use uefi_game.Kernel.Pages.Cover.{kernel_pages_lem}
use uefi_game.Kernel.Tables.{number_in, fill_boot}
use uefi_game.Kernel.Tables.Overlap.{fill_boot_overlap}
use uefi_game.Kernel.Tables.Flat.{PointsAway, IsReady, fill_boot_lem}
use uefi_game.Kernel.Start.{ExitServices, kernel_path, uefi_main}
use uefi_game.Kernel.Start.Exits.{AreKeyed}
use uefi_game.Kernel.Start.Jumps.{IsLaidOut, after_segments, kernel_main_lem}

-- A file of 81 bytes at 1000: a table of one header at 48, and a byte that goes to 244, with a zero
-- behind it.
abbrev file_in_memory : Memory
file_in_memory a =
    if a == 1024
    then 244
    else if a == 1028
    then 48
    else if a == 1044
    then 1
    else if a == 1048
    then 1
    else if a == 1052
    then 80
    else if a == 1060
    then 244
    else if a == 1064
    then 1
    else if a == 1068
    then 2
    else if a == 1076
    then 16
    else if a == 1080
    then 7
    else 0

abbrev copy_mem : ℕ → ℕ → ℕ → Memory → Memory
copy_mem dst src len m a = if leb dst a && ltb a (dst + len) then m (src + (a - dst)) else m a

abbrev set_mem : ℕ → ℕ → ℕ → Memory → Memory
set_mem dst len v m a = if leb dst a && ltb a (dst + len) then v else m a

in_range : (dst len k : ℕ) → k < len → (leb dst (dst + k) && ltb (dst + k) (dst + len)) ≡ true
in_range dst len k h = ground arith

off_range : (dst len a : ℕ) → (a < dst) ⊎ (dst + len ≤ a) → (leb dst a && ltb a (dst + len)) ≡ false
off_range dst len a (inl h) = ground arith
off_range dst len a (inr h) = ground arith

copies : AreCopies copy_mem set_mem
copies = record {
  copied = λ dst src len k m apart h.
      let e : src + (dst + k - dst) ≡ src + k = omega arith in rw (in_range dst len k h, e) refl;
  copy_away = λ dst src len a m h. rw (off_range dst len a h) refl;
  cleared = λ dst len v k m h. rw (in_range dst len k h) refl;
  set_away = λ dst len v a m h. rw (off_range dst len a h) refl;
}

loadable : IsLoadable copy_mem set_mem copies 1000 81 (omega arith) (header_at file_in_memory 1048)
loadable = record { in_file = omega arith; apart = inl (omega arith, omega arith) }

is_table : IsTable copy_mem set_mem copies 1000 81 (omega arith) file_in_memory 1048 1
is_table = record {
  low = omega arith;
  high = omega arith;
  loadable = λ i h e. let z : 1048 + 32 * i ≡ 1048 = omega arith in rw z loadable;
  disjoint = λ i j a h k ne s. absurd (omega arith);
}

-- Whatever file is asked for, that one is read; a page is enough.
abbrev firmware : KernelFirmware
firmware = record {
  efi_error = λ s. ltb 0 s;
  simple_file = (0, some 1);
  open_volume = λ fs. (0, some 2);
  open_file = λ root name. (0, some 3);
  file_size = λ file. (0, 81);
  allocate_pages = λ n. (0, 1000);
  read = λ file n addr m. (0, file_in_memory);
}

abbrev verdict : ℕ → ℕ → ℕ
verdict s k = if k == s then 0 else 1

-- A memory map of 48 bytes, whose key is the number of allocations.
abbrev services : ExitServices ℕ
services = record {
  get_memory_map =
      λ s m. (0, record m { map_size = 48; map_key = if leb 48 m.map_size then s else m.map_key });
  allocate_pool = λ s n. (s + 1, some 5);
  exit_boot_services = verdict;
}

left_with : (s : ℕ) → verdict s s ≡ 0
left_with s = ground arith

room_for : (n s k : ℕ) → 48 ≤ n → (if leb 48 n then s else k) ≡ s
room_for n s k h = ground arith

keyed : AreKeyed services 0
keyed = record {
  size_of = λ s. 48;
  key_of = λ s. s;
  sized = λ s m. refl;
  mapped = λ s m h. room_for m.map_size s m.map_key h;
  exits = left_with;
}

abbrev loaded_file : LoadedFile
loaded_file = record {
  status = 0;
  file_page_size = some 1;
  file_addr = some 1000;
  memory = file_in_memory;
}

file_loads : load_file firmware kernel_path (λ a. 0) ≡ ok loaded_file
unfolding load_file
file_loads = refl

file_bytes : (a : ℕ) → file_in_memory a < 256
file_bytes a = ground arith

-- The pointer at 0x50030 is 0 in this memory.
points_away :
    PointsAway 0x50000
      (after_segments firmware services copy_mem set_mem copies 1000 81 (omega arith) loaded_file)
unfolding load_kernel
points_away = record { structure = omega arith; high = omega arith; apart = inl (omega arith) }

kernel_main_lem_example :
    Returns
      (IsLaidOut firmware services copy_mem set_mem copies 1000 81 (omega arith) loaded_file)
      (uefi_main firmware services copy_mem set_mem (λ a. 0) 3)
kernel_main_lem_example =
    kernel_main_lem firmware services copy_mem set_mem copies 1000 81 (omega arith) (λ a. 0) 3
      loaded_file 1 file_loads refl refl file_bytes (omega arith) is_table points_away

load_file_lem_example :
    Returns (Outcome firmware kernel_path (λ a. 0)) (load_file firmware kernel_path (λ a. 0))
load_file_lem_example =
    load_file_lem firmware kernel_path (λ a. 0)
      (record {
        located = λ e. (1, refl);
        volume = λ fs e. (2, refl);
        file = λ root e. (3, refl);
        short = λ file. omega arith;
      })

kernel_pages_lem_example :
    (n : ℕ) × (kernel_pages 1000 file_in_memory ≡ (244, n))
    × (2 ≤ 4096 * n)
    × (4096 * n < 2 + 16 + 4096)
kernel_pages_lem_example =
    kernel_pages_lem 1000 4 file_in_memory (header_at file_in_memory 1048) refl (omega arith) refl
      (omega arith) (omega arith)

-- The descriptor of the table goes to 100.
abbrev pointing : Memory
pointing a = if a == 0x50030 then 100 else 0

pointing-PointsAway : PointsAway 0x50000 pointing
pointing-PointsAway = record {
  structure = omega arith;
  high = omega arith;
  apart = inl (omega arith);
}

fill_boot_lem_example : IsReady 244 0x50000 pointing (fill_boot 244 0x50000 pointing)
fill_boot_lem_example = fill_boot_lem 244 0x50000 pointing (omega arith) pointing-PointsAway

-- The descriptor of the table goes to the field `entry_addr`, at 0x50008.
abbrev pointing_inside : Memory
pointing_inside a = if a == 0x50030 then 8 else if a == 0x50032 then 5 else 0

fill_boot_overlap_example :
    (number_in 2 (fill_boot 244 0x50000 pointing_inside) 0x50008 ≡ 23)
    × (number_in 8 (fill_boot 244 0x50000 pointing_inside) 0x5000a ≡ 0x50018)
fill_boot_overlap_example = fill_boot_overlap 244 0x50000 pointing_inside (omega arith) refl
