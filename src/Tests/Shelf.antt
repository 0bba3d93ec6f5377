-- ===== src/Tests/Shelf.antt =====
-- A disk with the files of BootManager2D and BootManager3D: a configuration of one entry, a map, eleven
-- names of textures, a sprite, and one icon under every other name.
use uefi_game.Prelude.{
  ℕ, zero, suc, ◌*◌, ◌/◌, ◌^◌, ◌≤◌, ◌<◌, ◌≡◌, refl, ap, true, false, ◌||◌, Option, none, some, List,
  [], ◌∷◌, ◌++◌, map, arith, ltb, leb, ◌==◌, if◌then◌else◌, length, replicate, get_elem?, some_inj,
  length-replicate, Result, ok, Returns,
}
use mathlib.Core.List.{append-nil}
use uefi_game.Disk.Contents.{drop-all}
use uefi_game.Pixels.{Pixel}
use uefi_game.BootManager.Files.{BootServices, read_file, locate_cur_fs_handle}
use uefi_game.BootManager.Bmp.{Image, Bmp, read_bmp}
use uefi_game.BootManager.Bmp.Rows.{Loaded, Shows, read_bmp_lem}
use uefi_game.BootManager.Graphics.Halve.{cut_in_half_lem}
use uefi_game.BootManager.Entries.Text.{Line, IsLine, AreLines, AreEntries, config_text}
use uefi_game.BootManager.Partitions.{zero_partition, is_hard_drive}
use uefi_game.BootManager.Listing.Names.{AreNames, lines_text, name_of}
use uefi_game.BootManager.Numbers.Rows.{Row, AllRead, RowsRead, AreWide, rows_text}
use uefi_game.BootManager.Boot.{Platform}
use uefi_game.BootManager.Main.{halved, maze_config, textures_config}
use uefi_game.BootManager.Main.Loads.{Gives, AllGive}
use uefi_game.BootManager.Main.Setup.{IsInstalled}
use uefi_game.BootManager3D.Main.{whole}
use uefi_game.Tests.Icons.{efi, icon, icon-IsSupported, icon-Holds, pixels, arrays, grow, repeated}
use uefi_game.Tests.Loadings.{
  upto, eight, eight_lem, convert, strings, sscanf, spell, spell-Reads, platform,
}
use uefi_game.Tests.Volumes.{device_path, first_of_two}

-- `t: W`, `g: G`, `l: L`, `i: i`.
abbrev title : Line
title = record { key = b't' ∷ []; value = b'W' ∷ [] }

abbrev fields : List Line
fields =
    record { key = b'g' ∷ []; value = b'G' ∷ [] }
    ∷ record { key = b'l' ∷ []; value = b'L' ∷ [] }
    ∷ record { key = b'i' ∷ []; value = b'i' ∷ [] }
    ∷ []

abbrev names : List (List ℕ)
names = replicate 11 (b'a' ∷ [])

abbrev pub sprite_text : List ℕ
sprite_text = repeated 32 b'.' ++ b'\n' ∷ repeated 1023 b'.'

-- The file with a name, by its first character.
abbrev pub number_of : List ℕ → ℕ
number_of [] = 5
number_of (c ∷ cs) =
    if c == b'2' || c == b'3'
    then 1
    else if c == b'M'
    then 2
    else if c == b'T'
    then 3
    else if c == b'S'
    then 4
    else 5

abbrev pub contents : List Row → ℕ → List ℕ
contents rows file =
    if file == 1
    then config_text (title, fields) []
    else if file == 2
    then rows_text spell rows
    else if file == 3
    then lines_text names []
    else if file == 4
    then sprite_text
    else icon

pub shelf : List Row → BootServices
shelf rows = record {
  file_system = λ h. (0, some h);
  open_volume = λ v. (0, some v);
  open_file = λ root name. (0, some (number_of name));
  file_size = λ file. some (length (contents rows file));
  zero_pool = λ n. replicate n 0;
  read_bytes =
      λ file n. (0, if leb (length (contents rows file)) n then contents rows file else []);
  device_handle = (0, some 1);
}

pub shelf_lem :
    (rows : List Row) (name text : List ℕ)
    → contents rows (number_of name) ≡ text
    → read_file efi (shelf rows) 1 (some name)
      ≡ ok (record { status = 0; contents = some (text, length text) })
unfolding shelf read_file
shelf_lem rows name text e =
    let whole : leb (length text) (length text) ≡ true = ground arith in
    let buffer = repeated (length text) 0 in
    let size : length buffer ≡ length text = length-replicate (length text) 0 in
    let room : ltb (length buffer) (length text) ≡ false = ground arith in
    rw (e, whole, room, drop-all buffer (length text) (omega arith), append-nil text)

pub icon-Loaded :
    (rows : List Row) (name : List ℕ)
    → number_of name ≡ 5
    → Loaded efi (shelf rows) pixels 1 name icon
icon-Loaded rows name e = record {
  file = record { status = 0; contents = some (icon, length icon) };
  size = length icon;
  read = shelf_lem rows name icon (ap (contents rows) e);
  good = refl;
  contents = refl;
}

abbrev pub computer : List Row → Platform
computer rows = record (platform (shelf rows)) {
  allocate_pool = arrays;
  reallocate_pool = grow;
  rand = λ i. 5;
  screen = some (800, 600);
  handle_buffer = (0, 1 ∷ 2 ∷ []);
  device_path = device_path;
  partition_pool = λ n. some (replicate (n / 16) zero_partition);
}

-- What one texture becomes, of `cells` pixels or more.
abbrev Kept : (Image → Result (List Pixel)) → List Row → ℕ → List ℕ → Type 0
Kept make rows cells name =
    (t : List Pixel) × Gives (computer rows) make 1 (some name) t × (cells ≤ length t)

icon_there :
    (rows : List Row) (name : List ℕ)
    → number_of name ≡ 5
    → Returns
        (λ (b : Bmp). (b.status ≡ 0) × ((i : Image) × (b.image ≡ some i) × Shows icon 64 64 70 i))
        (read_bmp efi (shelf rows) pixels 1 (some name))
icon_there rows name e =
    read_bmp_lem efi (shelf rows) pixels 1 name icon 64 64 70 (icon-Loaded rows name e)
      icon-IsSupported icon-Holds refl

pub halved_lem :
    (rows : List Row) (name : List ℕ)
    → number_of name ≡ 5
    → Kept (halved (computer rows)) rows 1024 name
unfolding halved
halved_lem rows name e =
    let b = icon_there rows name e in
    let (picture, stored, shows) = b.holds.1 in
    let cut =
      cut_in_half_lem pixels picture.pixels 32 32 (omega arith) (omega (arith, shows.size)) refl in
    (
      cut.out,
      record {
        bmp = b.out;
        image = picture;
        read = b.returns;
        stored = stored;
        made = rw (shows.width, shows.height) cut.returns;
        succeeds = b.holds.0;
      },
      omega (arith, cut.holds.0),
    )

pub whole_lem : (rows : List Row) (name : List ℕ) → number_of name ≡ 5 → Kept whole rows 4096 name
unfolding whole
whole_lem rows name e =
    let b = icon_there rows name e in
    let (picture, stored, shows) = b.holds.1 in
    (
      picture.pixels,
      record {
        bmp = b.out;
        image = picture;
        read = b.returns;
        stored = stored;
        made = refl;
        succeeds = b.holds.0;
      },
      omega (arith, shows.size),
    )

-- The textures of some names.
abbrev AllKept : (Image → Result (List Pixel)) → List Row → ℕ → ℕ → List (Option (List ℕ)) → Type 0
AllKept make rows cells n listed =
    (ts : List (List Pixel)) × AllGive (computer rows) make 1 listed ts
    × (length ts ≡ n)
    × ((k : ℕ) (image : List Pixel) → get_elem? ts k ≡ some image → cells ≤ length image)

kept_cons :
    (cells : ℕ) (t : List Pixel) (ts : List (List Pixel))
    → cells ≤ length t
    → ((k : ℕ) (image : List Pixel) → get_elem? ts k ≡ some image → cells ≤ length image)
    → (k : ℕ) (image : List Pixel) → get_elem? (t ∷ ts) k ≡ some image
    → cells ≤ length image
kept_cons cells t ts h g zero image e = rw (← some_inj e) h
kept_cons cells t ts h g (suc k) image e = g k image e

pub kept_lem :
    (make : Image → Result (List Pixel)) (rows : List Row) (cells n : ℕ)
    → Kept make rows cells (b'a' ∷ [])
    → AllKept make rows cells n
        (map (name_of (eight none) (λ s. length (upto s)) convert) (replicate n (b'a' ∷ [])))
kept_lem make rows cells zero kept = ([], tt, refl, λ k image e. absurd cc)
kept_lem make rows cells (suc n) kept =
    let (t, gives, full) = kept in
    let (ts, given, size, all) = kept_lem make rows cells n kept in
    (t ∷ ts, (gives, given), omega arith, kept_cons cells t ts full all)

pub names_ok : (n : ℕ) → AreNames (replicate n (b'a' ∷ []))
names_ok zero = tt
names_ok (suc n) = ((omega arith, omega arith, tt), names_ok n)

pub all_read : (vs : List ℕ) → AllRead sscanf spell vs
all_read [] = tt
all_read (v ∷ vs) = (spell-Reads v, all_read vs)

pub rows_read : (rows : List Row) → RowsRead sscanf spell rows
rows_read [] = tt
rows_read (row ∷ rows) = (spell-Reads row.first, all_read row.others, rows_read rows)

pub fields_ok : IsLine title × AreLines fields × AreEntries []
fields_ok = (ground arith, ground arith, ground arith)

unfoldable pub computer-IsInstalled :
    (filename : List ℕ) (first : Row) (others : List Row) (w : ℕ)
    → number_of filename ≡ 1
    → AreWide w (first ∷ others)
    → w * length (first ∷ others) < 2 ^ 60
    → IsInstalled (computer (first ∷ others)) filename
unfolding locate_cur_fs_handle shelf lines_text is_hard_drive
computer-IsInstalled filename first others w e wide small = record {
  self = 1;
  status = 0;
  found = refl;
  fine = refl;
  entries = record {
    first = title;
    others = fields;
    more = [];
    status = 0;
    laid_out = fields_ok;
    read =
        shelf_lem (first ∷ others) filename (config_text (title, fields) [])
          (ap (contents (first ∷ others)) e);
    small = omega arith;
    few = omega arith;
    chars = λ n h. length-replicate n 0;
    room = refl;
    fine = refl;
  };
  drives = record { found = refl; few = omega arith; room = refl; first = first_of_two };
  map = record {
    spell = spell;
    first = first;
    others = others;
    w = w;
    status = 0;
    room = eight_lem 0;
    spelled = rows_read (first ∷ others);
    wide = wide;
    small = small;
    read = shelf_lem (first ∷ others) maze_config (rows_text spell (first ∷ others)) refl;
    fine = refl;
  };
  names = record {
    lines = names;
    tail = [];
    status = 0;
    strings = strings;
    room = eight_lem none;
    named = (names_ok 11, tt);
    small = omega arith;
    read = shelf_lem (first ∷ others) textures_config (lines_text names []) refl;
    fine = refl;
  };
}
