-- ===== src/Tests/Icons.antt =====
-- Application/BootManager2D/src/BMPReader.c, Common.c, FileSystems.c and DemoGame.c: an icon of 64 by
-- 64 pixels, from its file to a texture, and a whole game with it.
use uefi_game.Prelude.{
  fault, ◌⊎◌, ℕ, ◌+◌, ◌*◌, ◌/◌, ◌^◌, ◌≡◌, refl, ap, true, false, some, List, [], ◌∷◌, ◌++◌, arith,
  ltb, leb, if◌then◌else◌, length, replicate, length-replicate, length-append,
  get_elem?-append_left, ok, Returns,
}
use mathlib.Core.List.{append-nil}
use uefi_game.Disk.Contents.{drop-all}
use uefi_game.Efi.{Efi}
use uefi_game.Pixels.{Pixel, zero_pixel}
use uefi_game.BootManager.Files.{BootServices, read_file}
use uefi_game.BootManager.Files.Outcomes.{IsSound, LacksInfo, Outcome, read_file-Outcome}
use uefi_game.BootManager.Bmp.{Image, Bmp, read_bmp}
use uefi_game.BootManager.Bmp.Header.{IsSupported}
use uefi_game.BootManager.Bmp.Rows.{Holds, Shows, Loaded, read_bmp_lem}
use uefi_game.BootManager.Entries.{BootEntry, zero_entry}
use uefi_game.BootManager.Icons.{make_boot_entry_texture}
use uefi_game.BootManager.Icons.Growth.{Grows}
use uefi_game.BootManager.Icons.Making.{IsIcon, Textured, make_boot_entry_texture_lem}
use uefi_game.BootManager.Walk.{cell_side}

abbrev pub efi : Efi
efi = record {
  efi_error = λ s. leb (2 ^ 63) s;
  efi_success = 0;
  efi_invalid_parameter = 2 ^ 63 + 2;
  efi_out_of_resources = 2 ^ 63 + 9;
  efi_unsupported = 2 ^ 63 + 3;
  media_device_path = 4;
  media_harddrive_dp = 1;
}

abbrev pub header : List ℕ
header =
    66 ∷ 77 ∷ 0 ∷ 0 ∷ 0 ∷ 0 ∷ 0 ∷ 0 ∷ 0 ∷ 0 ∷ 70 ∷ 0 ∷ 0 ∷ 0 ∷ 124 ∷ 0 ∷ 0 ∷ 0 ∷ 64 ∷ 0 ∷ 0 ∷ 0 ∷ 64
    ∷ 0 ∷ 0 ∷ 0 ∷ 1 ∷ 0 ∷ 32 ∷ 0 ∷ 3 ∷ 0 ∷ 0 ∷ 0 ∷ 0 ∷ 0 ∷ 0 ∷ 0 ∷ 0 ∷ 0 ∷ 0 ∷ 0 ∷ 0 ∷ 0 ∷ 0 ∷ 0 ∷ 0
    ∷ 0 ∷ 0 ∷ 0 ∷ 0 ∷ 0 ∷ 0 ∷ 0 ∷ 0 ∷ 0 ∷ 255 ∷ 0 ∷ 0 ∷ 255 ∷ 0 ∷ 0 ∷ 255 ∷ 0 ∷ 0 ∷ 0 ∷ 0 ∷ 0 ∷ 0
    ∷ 255 ∷ []

abbrev pub repeated : ℕ → ℕ → List ℕ
repeated n v = replicate n v

pub icon : List ℕ
icon = header ++ repeated 16384 9

icon_size : length icon ≡ 16454
unfolding icon
icon_size = omega (arith, length-replicate {A = ℕ} 16384 9)

-- Every file is the icon.
pub disk : List ℕ → BootServices
disk contents = record {
  file_system = λ h. (0, some h);
  open_volume = λ v. (0, some v);
  open_file = λ root name. (0, some 3);
  file_size = λ file. some (length contents);
  zero_pool = λ n. replicate n 0;
  read_bytes = λ file n. (0, if leb (length contents) n then contents else []);
  device_handle = (0, some 1);
}

disk-IsSound : (contents : List ℕ) → IsSound efi (disk contents)
unfolding disk
disk-IsSound contents = record {
  file_system = λ h e. (h, refl);
  open_volume = λ v e. (v, refl);
  open_file = λ r name e. (3, refl);
  room = λ n. length-replicate n 0;
  fits = λ f n. ground arith;
}

abbrev pub pixels : ℕ → List Pixel
pixels bytes = replicate (bytes / 4) zero_pixel

disk-Loaded : (contents name : List ℕ) → Loaded efi (disk contents) pixels 1 name contents
unfolding disk read_file
disk-Loaded contents name =
    let whole : leb (length contents) (length contents) ≡ true = ground arith in
    let buffer = repeated (length contents) 0 in
    let size : length buffer ≡ length contents = length-replicate (length contents) 0 in
    let room : ltb (length buffer) (length contents) ≡ false = ground arith in
    record {
      file = record { status = 0; contents = some (contents, length contents) };
      size = length contents;
      read = rw (whole, room, drop-all buffer (length contents) (omega arith), append-nil contents);
      good = refl;
      contents = refl;
    }

pub icon-IsSupported : IsSupported icon
unfolding icon
icon-IsSupported = record {
  signature = refl;
  header_size = refl;
  bits_per_pixel = refl;
  compression_method = refl;
  red_mask = refl;
  green_mask = refl;
  blue_mask = refl;
  alpha_mask = refl;
}

pub icon-Holds : Holds icon 64 64 70
unfolding icon
icon-Holds = record {
  width = refl;
  height = refl;
  offset = refl;
  narrow = omega arith;
  low = omega arith;
  small = omega arith;
  header = omega (arith, icon_size);
  inside = omega (arith, icon_size);
}

abbrev pub name : List ℕ
name = b'i' ∷ 0 ∷ []

read_file-Outcome_example :
    LacksInfo efi (disk icon) 1 name × (read_file efi (disk icon) 1 (some name) ≡ fault)
    ⊎ Returns (Outcome efi (disk icon) 1 name) (read_file efi (disk icon) 1 (some name))
read_file-Outcome_example = read_file-Outcome efi (disk icon) 1 name (disk-IsSound icon)

read_bmp_lem_example :
    Returns
      (λ (b : Bmp). (b.status ≡ 0) × ((i : Image) × (b.image ≡ some i) × Shows icon 64 64 70 i))
      (read_bmp efi (disk icon) pixels 1 (some name))
read_bmp_lem_example =
    read_bmp_lem efi (disk icon) pixels 1 name icon 64 64 70 (disk-Loaded icon name)
      icon-IsSupported icon-Holds refl

blank-not-IsSupported : ¬ IsSupported (repeated 70 0)
blank-not-IsSupported s = absurd (omega (arith, s.signature))

-- Arrays of images.
abbrev pub arrays : ℕ → List (List Pixel)
arrays bytes = replicate (bytes / 8) []

abbrev pub grow : ℕ → ℕ → List (List Pixel) → List (List Pixel)
grow before after list = list ++ [] ∷ []

pub grow-Grows : Grows arrays grow
grow-Grows = record {
  first = refl;
  size = λ n list e. omega (arith, length-append list ([] ∷ []));
  kept = λ n k list e h. get_elem?-append_left list ([] ∷ []) k (omega arith);
}

abbrev pub tile : List Pixel
tile = replicate (cell_side * cell_side) zero_pixel

pub tile_size : length tile ≡ cell_side * cell_side
tile_size = length-replicate (cell_side * cell_side) zero_pixel

abbrev pub entry : BootEntry
entry = record zero_entry { icon = some name }

pub entry-IsIcon : IsIcon efi (disk icon) pixels arrays grow 1 entry cell_side cell_side
unfolding cell_side
entry-IsIcon = record {
  name = name;
  bytes = icon;
  start = 70;
  named = refl;
  loaded = disk-Loaded icon name;
  supported = icon-IsSupported;
  holds = icon-Holds;
}

pub pixels_room : (n : ℕ) → pixels (4 * n) ≡ replicate n zero_pixel
pixels_room n = let e : 4 * n / 4 ≡ n = omega arith in ap (λ m. replicate m zero_pixel) e

make_boot_entry_texture_lem_example :
    (texture : List Pixel) × Textured cell_side cell_side 70 icon tile texture
    × (make_boot_entry_texture efi
          (disk icon)
          pixels
          arrays
          grow
          1
          entry
          0
          (record { images = tile ∷ []; count = 1 })
        ≡ ok (record { images = tile ∷ texture ∷ []; count = 2 }))
unfolding entry-IsIcon
make_boot_entry_texture_lem_example =
    make_boot_entry_texture_lem efi (disk icon) pixels arrays grow 1 cell_side cell_side entry
      entry-IsIcon 0 tile (record { images = tile ∷ []; count = 1 }) pixels_room grow-Grows refl
      (omega (arith, tile_size)) refl (omega arith)
