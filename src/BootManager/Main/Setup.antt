-- ===== src/BootManager/Main/Setup.antt =====
-- What `UefiMain` knows before the game: the entries, the partitions, the map and the textures.
use uefi_game.Prelude.{
  Returns-cong, ℕ, ◌+◌, ◌*◌, ◌^◌, ◌<◌, ◌≡◌, refl, sym, ap, ◌∙◌, ◌⊎◌, inr, false, Option, none, some,
  List, [], ◌∷◌, map, arith, length, replicate, take, Result, ok, Returns, Returns-ok, Returns-map,
}
use uefi_game.Pixels.{Pixel}
use uefi_game.BootManager.Files.{read_file, locate_cur_fs_handle}
use uefi_game.BootManager.Bmp.{Image}
use uefi_game.BootManager.Entries.{Config, zero_entry}
use uefi_game.BootManager.Entries.Text.{
  Line, IsLine, AreLines, AreEntries, config_text, entry_of, final_status,
}
use uefi_game.BootManager.Entries.RoundTrip.{parse_config_file_lem}
use uefi_game.BootManager.Partitions.{Located, zero_partition, locate_fs_partitions}
use uefi_game.BootManager.Partitions.Drives.{drive_count}
use uefi_game.BootManager.Partitions.Table.{DrivesFirst, Table, locate_fs_partitions_lem}
use uefi_game.BootManager.Partitions.Filled.{table_lem}
use uefi_game.BootManager.Listing.Names.{AreNames, IsUnbroken, AreStrings, lines_text, name_of}
use uefi_game.BootManager.Listing.Whole.{parse_textures_config_file_lem}
use uefi_game.BootManager.Numbers.{Grid}
use uefi_game.BootManager.Numbers.Rows.{Row, RowsRead, AreWide, rows_text, values}
use uefi_game.BootManager.Numbers.Whole.{parse_maze_config_file_lem}
use uefi_game.BootManager.Boot.{Platform, read_config_file}
use uefi_game.BootManager.Boot.First.{AreFilled}
use uefi_game.BootManager.Main.{
  Files, Loading, maze_config, textures_config, read_files, locate_partitions, read_entries,
  prepare, load_textures,
}
use uefi_game.BootManager.Main.Loads.{AllGive, end_status, load_textures_lem}

pub take-all : (xs : List ℕ) → take (length xs) xs ≡ xs
take-all [] = refl
take-all (x ∷ xs) = ap (◌∷◌ x) (take-all xs)

length-map : {A B : Type 0} (f : A → B) (xs : List A) → length (map f xs) ≡ length xs
length-map f [] = refl
length-map f (x ∷ xs) = omega (arith, length-map f xs)

module _ (p : Platform) where
  open p use {efi, boot_services}

  -- The file with this name holds this text.
  abbrev pub Contains : ℕ → List ℕ → List ℕ → ℕ → Type 0
  Contains self name text status =
      read_file efi boot_services self (some name)
      ≡ ok (record { status = status; contents = some (text, length text) })

  -- The configuration file is laid out line by line, and its values can be converted.
  pub record HasEntries (self : ℕ) (filename : List ℕ) : Type 0 where
    pub first : Line
    pub others : List Line
    pub more : List (Line × List Line)
    pub status : ℕ
    pub laid_out : IsLine first × AreLines others × AreEntries more
    pub read : Contains self filename (config_text (first, others) more) status
    pub small : length (config_text (first, others) more) < 2 ^ 56
    pub few : length more + 1 < 2 ^ 56
    pub chars : (n : ℕ) → n < 2 ^ 64 → length (p.char_pool n) ≡ n
    pub room : p.entry_pool ((length more + 1) * 40) ≡ replicate (length more + 1) zero_entry
    pub fine :
        efi.efi_error (final_status p.to_unicode efi.efi_success ((first, others) ∷ more)) ≡ false

  abbrev pub config_of : {self : ℕ} {filename : List ℕ} → HasEntries self filename → Config
  config_of e = record {
    result = map (entry_of p.to_unicode) ((e.first, e.others) ∷ e.more);
    result_size = length e.more + 1;
    status = final_status p.to_unicode efi.efi_success ((e.first, e.others) ∷ e.more);
  }

  pub config_of-size :
      {self : ℕ} {filename : List ℕ} (e : HasEntries self filename)
      → length (config_of e).result ≡ length e.more + 1
  config_of-size e = let m = length-map (entry_of p.to_unicode) e.more in omega arith

  entries_lem :
      (self : ℕ) (filename : List ℕ) (e : HasEntries self filename)
      → read_config_file p self filename ≡ ok (config_of e)
  unfolding read_config_file
  entries_lem self filename e =
      let text = config_text (e.first, e.others) e.more in
      rw (e.read, take-all text)
        (parse_config_file_lem text p.char_pool p.to_unicode e.small e.chars efi.efi_success
          p.entry_pool e.first e.others e.more e.laid_out.0 e.laid_out.1 e.laid_out.2 refl e.room
          e.few)

  -- The hard drive partitions come first among the handles.
  pub record HasDrives : Type 0 where
    pub found : efi.efi_error p.handle_buffer.0 ≡ false
    pub few : length p.handle_buffer.1 < 2 ^ 32
    pub room :
        p.partition_pool (drive_count efi p.device_path p.handle_buffer.1 * 16)
        ≡ some (replicate (drive_count efi p.device_path p.handle_buffer.1) zero_partition)
    pub first : DrivesFirst efi p.device_path p.handle_buffer.1

  -- The table of the hard drive partitions: the handles that the firmware has listed, each with the
  -- signature of the last hard drive node of its path.
  abbrev pub IsLocated : Located → Type 0
  IsLocated l =
      (l.status ≡ p.handle_buffer.0)
      × (l.partitions_count ≡ length l.partitions)
      × AreFilled l.partitions
      × Table efi p.device_path p.handle_buffer.1 (length p.handle_buffer.1) l.partitions

  drives_lem :
      HasDrives
      → Returns IsLocated (
          locate_fs_partitions efi p.device_path p.partition_pool p.handle_buffer.0
            p.handle_buffer.1)
  drives_lem h =
      Returns-map
        (locate_fs_partitions_lem efi p.device_path p.handle_buffer.1 p.partition_pool
          p.handle_buffer.0 h.found h.few h.room h.first)
        (λ l t. (
          t.0,
          t.1 ∙ sym t.2.size,
          table_lem efi p.device_path p.handle_buffer.1 l.partitions h.first t.2,
          t.2,
        ))

  -- The map: numbers that `sscanf` reads, `w` in every row.
  pub record HasMap (self : ℕ) : Type 0 where
    pub spell : ℕ → List ℕ
    pub first : Row
    pub others : List Row
    pub w : ℕ
    pub status : ℕ
    pub room : (n : ℕ) → p.number_pool (8 * n) ≡ replicate n 0
    pub spelled : RowsRead p.sscanf spell (first ∷ others)
    pub wide : AreWide w (first ∷ others)
    pub small : w * length (first ∷ others) < 2 ^ 60
    pub read : Contains self maze_config (rows_text spell (first ∷ others)) status
    pub fine : efi.efi_error status ≡ false

  abbrev pub grid_of : {self : ℕ} → HasMap self → Grid
  grid_of m = record {
    numbers = values (m.first ∷ m.others);
    width = m.w;
    height = length (m.first ∷ m.others);
  }

  -- The names of the textures, one in a line.
  pub record HasNames (self : ℕ) : Type 0 where
    pub lines : List (List ℕ)
    pub tail : List ℕ
    pub status : ℕ
    pub strings : AreStrings p.name_pool p.ascii_str_len p.to_unicode
    pub room : (n : ℕ) → p.name_pool (8 * n) ≡ replicate n none
    pub named : AreNames lines × IsUnbroken tail
    pub small : length (lines_text lines tail) < 2 ^ 60
    pub read : Contains self textures_config (lines_text lines tail) status
    pub fine : efi.efi_error status ≡ false

  abbrev pub names_of : {self : ℕ} → HasNames self → List (Option (List ℕ))
  names_of n = map (name_of p.name_pool p.ascii_str_len p.to_unicode) n.lines

  -- Everything that is read before the textures.
  pub record IsInstalled (filename : List ℕ) : Type 0 where
    pub self : ℕ
    pub status : ℕ
    pub found : locate_cur_fs_handle efi boot_services 0 ≡ ok (status, self)
    pub fine : efi.efi_error status ≡ false
    pub entries : HasEntries self filename
    pub drives : HasDrives
    pub map : HasMap self
    pub names : HasNames self

  module _ (filename : List ℕ) (i : IsInstalled filename) where
    -- What the files say.
    pub record IsRead (f : Files) : Type 0 where
      pub self : f.self ≡ i.self
      pub config : f.config ≡ config_of i.entries
      pub located : IsLocated f.located
      pub grid : f.maze.grid ≡ some (grid_of i.map)
      pub names : f.names.textures ≡ some (names_of i.names, length i.names.lines)

    pub prepare_lem :
        Returns (λ (o : ℕ ⊎ Files). (f : Files) × (o ≡ inr f) × IsRead f) (prepare p filename)
    unfolding prepare read_entries locate_partitions read_files
    prepare_lem =
        let e = entries_lem i.self filename i.entries in
        let d = drives_lem i.drives in
        let fine : efi.efi_error d.out.status ≡ false =
          ap efi.efi_error d.holds.0 ∙ i.drives.found in
        let m =
          parse_maze_config_file_lem p.sscanf i.map.spell p.number_pool i.map.room efi boot_services
            i.self (some maze_config) i.map.status i.map.first i.map.others i.map.w i.map.spelled
            i.map.wide i.map.small i.map.read i.map.fine in
        let n =
          parse_textures_config_file_lem p.name_pool p.ascii_str_len p.to_unicode i.names.strings
            i.names.room efi boot_services i.self (some textures_config) i.names.status
            i.names.lines i.names.tail i.names.named.0 i.names.named.1 i.names.small i.names.read
            i.names.fine in
        rw (i.found, i.fine, e, i.entries.fine, d.returns, fine, m, n)
          (Returns-ok (
            _,
            refl,
            record { self = refl; config = refl; located = d.holds; grid = refl; names = refl },
          ))

    -- The textures, as `make` leaves them.
    pub record HasTextures (make : Image → Result (List Pixel)) (textures : List (List Pixel))
        : Type 0 where
      pub success : efi.efi_error efi.efi_success ≡ false
      pub room : (n : ℕ) → p.image_pool (n * 8) ≡ replicate n []
      pub few : length i.names.lines < 2 ^ 60
      pub given : AllGive p make i.self (names_of i.names) textures

    pub textures_lem :
        (make : Image → Result (List Pixel)) (textures : List (List Pixel)) (f : Files)
        (listed : List (Option (List ℕ)) × ℕ)
        → HasTextures make textures
        → IsRead f
        → listed ≡ (names_of i.names, length i.names.lines)
        → Returns
            (λ (l : Loading).
              (l.textures ≡ textures)
              × (l.failed ≡ false)
              × (l.status ≡ end_status p make i.self f.located.status (names_of i.names)))
            (load_textures p make f.self f.located.status listed.0 listed.1)
    textures_lem make textures f listed h r same =
        let count = length-map (name_of p.name_pool p.ascii_str_len p.to_unicode) i.names.lines in
        Returns-cong (λ j. load_textures p make (r.self j) f.located.status (same j).0 (same j).1)
          (rw (← count) (
            load_textures_lem p make i.self (names_of i.names) textures f.located.status h.room
              h.success (omega (arith, count, h.few)) h.given))

    -- If there is a texture, the status is `EFI_SUCCESS`.
    pub named_lem :
        (make : Image → Result (List Pixel)) (status : ℕ)
        → 0 < length i.names.lines
        → end_status p make i.self status (names_of i.names) ≡ efi.efi_success
    named_lem make status some_line = some_name i.names.lines some_line
      where
        some_name :
            (lines : List (List ℕ))
            → 0 < length lines
            → end_status p make i.self status
                (map (name_of p.name_pool p.ascii_str_len p.to_unicode) lines)
              ≡ efi.efi_success
        some_name [] h = absurd (omega arith)
        some_name (line ∷ lines) h = refl
