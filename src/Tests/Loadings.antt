-- ===== src/Tests/Loadings.antt =====
-- Application/BootManager2D/src/Config.c and Main.c: the configuration files of the textures and of
-- the map, the textures, and the start of an entry.
use uefi_game.Prelude.{
  Bool, false, true, Bool-cases, inl, inr, ℕ, ◌+◌, ◌-◌, ◌*◌, ◌/◌, ◌≡◌, refl, sym, ap, ◌∙◌, ◌⊎◌, inl,
  inr, false, ◌||◌, Option, none, some, List, [], ◌∷◌, ◌++◌, arith, ◌==◌, if◌then◌else◌, length,
  replicate, Result, ok, fault,
}
use uefi_game.Pixels.{zero_pixel}
use uefi_game.BootManager.Files.{BootServices, read_file}
use uefi_game.BootManager.Entries.{zero_entry}
use uefi_game.BootManager.Partitions.{Partition}
use uefi_game.BootManager.Listing.{parse_textures_config_file}
use uefi_game.BootManager.Listing.Names.{lines_text, IsName, AreStrings}
use uefi_game.BootManager.Listing.Whole.{parse_textures_config_file_lem}
use uefi_game.BootManager.Numbers.{parse_maze_config_file}
use uefi_game.BootManager.Numbers.Rows.{Row, Reads, IsTerminated}
use uefi_game.BootManager.Numbers.Whole.{parse_maze_config_file_lem}
use uefi_game.BootManager.Boot.{Platform, start_from, boot_entry}
use uefi_game.BootManager.Boot.First.{boot_entry_lem}
use uefi_game.Tests.Icons.{efi}

-- Every file has these contents; the own file system is found with this status.
abbrev volume : ℕ → List ℕ → BootServices
volume status contents = record {
  file_system = λ h. (0, some h);
  open_volume = λ v. (0, some v);
  open_file = λ root name. (0, some 3);
  file_size = λ file. some (length contents);
  zero_pool = λ n. replicate n 0;
  read_bytes = λ file n. (0, contents);
  device_handle = (status, some 1);
}

-- The bytes before the first zero.
abbrev pub upto : List ℕ → List ℕ
upto [] = []
upto (c ∷ cs) = if c == 0 then [] else c ∷ upto cs

pub upto_lem : (name rest : List ℕ) → IsName name → upto (name ++ 0 ∷ rest) ≡ name
upto_lem [] rest h = refl
upto_lem (c ∷ cs) rest h =
    let some_more : (c == 0) ≡ false = let ne = h.1 in ground arith in
    rw some_more (ap (◌∷◌ c) (upto_lem cs rest h.2))

abbrev pub eight : {A : Type 0} → A → ℕ → List A
eight a n = replicate (n / 8) a

pub eight_lem : {A : Type 0} (a : A) (n : ℕ) → eight a (8 * n) ≡ replicate n a
eight_lem a n = let e : 8 * n / 8 ≡ n = omega arith in ap (λ k. replicate k a) e

abbrev pub convert : List ℕ → ℕ → ℕ × List ℕ
convert s n = (0, upto s)

pub strings : AreStrings (eight none) (λ s. length (upto s)) convert
strings = record {
  measured = λ name rest h. ap length (upto_lem name rest h);
  converted = λ name rest n h. ap (λ t. (0, t)) (upto_lem name rest h ∙ sym (upto_lem name [] h));
}

-- Two names, and a line that is not ended.
abbrev listing : List ℕ
listing = b'a' ∷ b'\n' ∷ b'b' ∷ b'c' ∷ b'\n' ∷ b'd' ∷ []

parse_textures_config_file_lem_example :
    parse_textures_config_file
      (eight none)
      (λ s. length (upto s))
      convert
      efi
      (volume 0 listing)
      1
      (some (b't' ∷ []))
    ≡ ok (record {
      status = 0;
      textures = some (some (b'a' ∷ []) ∷ some (b'b' ∷ b'c' ∷ []) ∷ [], 2);
    })
unfolding read_file lines_text
parse_textures_config_file_lem_example =
    parse_textures_config_file_lem (eight none) (λ s. length (upto s)) convert strings
      (eight_lem none) efi (volume 0 listing) 1 (some (b't' ∷ [])) 0
      ((b'a' ∷ []) ∷ (b'b' ∷ b'c' ∷ []) ∷ []) (b'd' ∷ [])
      (
        (omega arith, omega arith, tt),
        ((omega arith, omega arith, (omega arith, omega arith, tt)), tt),
      )
      (omega arith, tt) (omega arith) refl refl

-- Numbers of one digit, behind a blank or not.
abbrev pub digit : List ℕ → ℕ → Result (Option (ℕ × ℕ))
digit [] n = fault
digit (c ∷ cs) n = ok (some (c - 48, n))

abbrev pub scan : List ℕ → Result (Option (ℕ × ℕ))
scan [] = fault
scan (c ∷ cs) = if c == b' ' || c == b'\n' then digit cs 2 else digit (c ∷ cs) 1

abbrev pub has_zero : List ℕ → Bool
has_zero [] = false
has_zero (c ∷ cs) = c == 0 || has_zero cs

-- The length of the string is taken first.
abbrev pub sscanf : List ℕ → Result (Option (ℕ × ℕ))
sscanf text = if has_zero text then scan text else fault

has_zero-of : (text : List ℕ) → IsTerminated text → has_zero text ≡ true
has_zero-of [] h = absurd h
has_zero-of (c ∷ cs) (inl h) = rw h
has_zero-of (c ∷ cs) (inr h) = elim (Bool-cases (c == 0)) [
  | inl z ↦ rw z
  | inr z ↦ rw (z, has_zero-of cs h)
]

abbrev pub spell : ℕ → List ℕ
spell v = (48 + v) ∷ []

blank-behind :
    (v before : ℕ) (rest : List ℕ)
    → (before ≡ b' ') ⊎ (before ≡ b'\n')
    → scan (before ∷ spell v ++ rest) ≡ ok (some (v, 2))
blank-behind v before rest (inl h) = let e : 48 + v - 48 ≡ v = omega arith in rw (h, e)
blank-behind v before rest (inr h) = let e : 48 + v - 48 ≡ v = omega arith in rw (h, e)

pub spell-Reads : (v : ℕ) → Reads sscanf spell v
spell-Reads v =
    let e : 48 + v - 48 ≡ v = omega arith in
    let no : (48 + v == b' ' || 48 + v == b'\n') ≡ false = ground arith in
    record {
      plain = (omega arith, omega arith, tt);
      alone =
          λ sep rest h ends. rw (has_zero-of (spell v ++ sep ∷ rest) (inr (inr ends))) (rw (no, e));
      behind = λ before sep rest h k ends.
          rw (has_zero-of (before ∷ spell v ++ sep ∷ rest) (inr (inr (inr ends))))
            (blank-behind v before (sep ∷ rest) h);
    }

abbrev rows : List Row
rows = record { first = 3; others = 4 ∷ [] } ∷ []

abbrev grid_text : List ℕ
grid_text = b'1' ∷ b' ' ∷ b'2' ∷ b'\n' ∷ b'3' ∷ b' ' ∷ b'4' ∷ b'\n' ∷ 0 ∷ []

parse_maze_config_file_lem_example :
    parse_maze_config_file sscanf (eight 0) efi (volume 0 grid_text) 1 (some (b'm' ∷ []))
    ≡ ok (record {
      status = 0;
      grid = some (record { numbers = 1 ∷ 2 ∷ 3 ∷ 4 ∷ []; width = 2; height = 2 });
    })
unfolding read_file
parse_maze_config_file_lem_example =
    parse_maze_config_file_lem sscanf spell (eight 0) (eight_lem 0) efi (volume 0 grid_text) 1
      (some (b'm' ∷ [])) 0 (record { first = 1; others = 2 ∷ [] }) rows 2
      (spell-Reads 1, (spell-Reads 2, tt), (spell-Reads 3, (spell-Reads 4, tt), tt))
      (refl, (refl, tt)) (omega arith) refl refl

abbrev pub platform : BootServices → Platform
platform bs = record {
  efi = efi;
  boot_services = bs;
  entry_pool = λ n. replicate (n / 40) zero_entry;
  char_pool = λ n. replicate n 0;
  name_pool = eight none;
  number_pool = eight 0;
  pixel_pool = λ n. replicate (n / 4) zero_pixel;
  image_pool = eight [];
  partition_pool = λ n. none;
  allocate_pool = eight [];
  reallocate_pool = λ old new images. images;
  to_unicode = convert;
  ascii_str_len = λ s. length (upto s);
  sscanf = sscanf;
  rand = λ i. 0;
  handle_buffer = (0, []);
  device_path = λ h. none;
  screen = none;
  str_to_guid = λ s. 7;
  str_len = λ s. length s;
  load_image = λ h name. (0, some (h + 10));
  loaded_image = λ h. some (h + 20);
}

abbrev partitions : List Partition
partitions = record { handle = 1; guid = some 5 } ∷ record { handle = 2; guid = some 7 } ∷ []

boot_entry_lem_example :
    boot_entry (platform (volume 0 [])) zero_entry partitions 2
    ≡ ok (record {
      status = 0;
      started =
          some (record {
            child_handle = 12;
            protocol = 32;
            load_options = none;
            load_options_size = 0;
          });
    })
unfolding start_from
boot_entry_lem_example =
    boot_entry_lem (platform (volume 0 [])) zero_entry partitions ((5, refl), ((7, refl), tt))
