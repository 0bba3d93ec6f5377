-- ===== src/Tests/Configs.antt =====
-- Application/BootManager2D/src/Config.c on small files.
use uefi_game.Prelude.{
  wrap, wrap, ℕ, zero, suc, ◌+◌, ◌*◌, ◌/◌, ◌<◌, ◌≡◌, refl, ◌≢◌, some, List, [], ◌∷◌, arith, length,
  replicate, get_elem?, length-replicate, ok, Returns,
}
use uefi_game.Pixels.{Pixel, zero_pixel}
use uefi_game.BootManager.Entries.{BootEntry, zero_entry, Config, set_field, parse_config_file}
use uefi_game.BootManager.Entries.Bounds.{blank_lines, parse_config_file_bounds}
use uefi_game.BootManager.Entries.Text.{Line, config_text}
use uefi_game.BootManager.Entries.RoundTrip.{parse_config_file_lem}
use uefi_game.BootManager.Sprite.{Sprite, colour, parse_sprite}
use uefi_game.BootManager.Sprite.Painting.{parse_sprite_lem, coloured}

-- `t: ab` and `g: c`, a blank line, `t: d`.
abbrev title : Line
title = record { key = b't' ∷ []; value = b'a' ∷ b'b' ∷ [] }

abbrev guid : Line
guid = record { key = b'g' ∷ []; value = b'c' ∷ [] }

abbrev second : Line
second = record { key = b't' ∷ []; value = b'd' ∷ [] }

abbrev two_entries : List ℕ
two_entries = config_text (title, guid ∷ []) ((second, []) ∷ [])

abbrev dirty_pool : ℕ → List ℕ
dirty_pool n = replicate n 7

abbrev to_unicode : List ℕ → ℕ → ℕ × List ℕ
to_unicode text size = (0, text)

abbrev table : ℕ → List BootEntry
table bytes = replicate (bytes / 40) zero_entry

abbrev read_entries : Config
read_entries = record {
  result =
      record zero_entry { title = some (b'a' ∷ b'b' ∷ 0 ∷ []); volume_guid = some (b'c' ∷ 0 ∷ []) }
      ∷ record zero_entry { title = some (b'd' ∷ 0 ∷ []) }
      ∷ [];
  result_size = 2;
  status = 0;
}

parse_two_entries : parse_config_file two_entries dirty_pool to_unicode 0 table ≡ ok read_entries
unfolding parse_config_file
parse_two_entries = refl

-- A blank behind a colon inside a value is not counted, so the value loses its first character.
abbrev with_colon : List ℕ
with_colon = b't' ∷ b':' ∷ b' ' ∷ b'a' ∷ b':' ∷ b' ' ∷ b'b' ∷ b'\n' ∷ []

parse_with_colon :
    parse_config_file with_colon dirty_pool to_unicode 0 table
    ≡ ok (record {
      result = record zero_entry { title = some (b':' ∷ b' ' ∷ b'b' ∷ 0 ∷ []) } ∷ [];
      result_size = 1;
      status = 0;
    })
unfolding parse_config_file
parse_with_colon = refl

parse_config_file_lem_example :
    parse_config_file two_entries dirty_pool to_unicode 0 table ≡ ok read_entries
unfolding set_field
parse_config_file_lem_example =
    parse_config_file_lem two_entries dirty_pool to_unicode (omega arith)
      (λ n h. length-replicate n 7) 0 table title (guid ∷ []) ((second, []) ∷ []) (ground arith)
      (ground arith) (ground arith) refl refl (omega arith)

parse_config_file_bounds_example :
    Returns
      (λ (c : Config).
        (c.result_size ≡ blank_lines with_colon (length with_colon) + 1)
        × (length c.result ≡ c.result_size))
      (parse_config_file with_colon dirty_pool to_unicode 0 table)
unfolding wrap
parse_config_file_bounds_example =
    parse_config_file_bounds with_colon dirty_pool to_unicode (omega arith)
      (λ n h. length-replicate n 7) 0 table refl

-- A red pixel and a cleared one.
abbrev red_dot : List ℕ
red_dot = b'r' ∷ b'.' ∷ b'\n' ∷ []

abbrev pixels : ℕ → List Pixel
pixels bytes = replicate (bytes / 4) zero_pixel

red_dot_first : (k : ℕ) → k < 2 → get_elem? red_dot k ≢ some b'\n'
red_dot_first zero h = cc
red_dot_first (suc zero) h = cc
red_dot_first (suc (suc k)) h = absurd (omega arith)

parse_sprite_lem_example :
    Returns
      (λ (r : Sprite).
        (r.width ≡ 2)
        × (r.height ≡ 1)
        × (length r.pixels ≡ 2)
        × ((y x c : ℕ)
            → y < 1
            → x < 2
            → get_elem? red_dot (y * 3 + x) ≡ some c
            → get_elem? r.pixels (y * 2 + x) ≡ some (coloured (colour c) zero_pixel)))
      (parse_sprite pixels red_dot)
parse_sprite_lem_example = parse_sprite_lem pixels red_dot 2 refl red_dot_first (omega arith) refl

abbrev unbroken : List ℕ
unbroken = b'r' ∷ []

one_line_only : (k : ℕ) → get_elem? unbroken k ≢ some b'\n'
one_line_only zero = cc
one_line_only (suc k) = cc
