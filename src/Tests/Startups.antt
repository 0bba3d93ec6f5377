-- ===== src/Tests/Startups.antt =====
-- Application/BootManager2D/src/Main.c: a whole run of the application, on the disk of Shelf.
use uefi_game.Prelude.{
  ℕ, zero, suc, ◌+◌, ◌*◌, ◌/◌, ◌≡◌, refl, sym, ap, ◌∙◌, some, List, [], ◌∷◌, ◌++◌, arith, length,
  replicate, get_elem?, some_inj, get_elem?-replicate, get_elem?-append_left, Returns,
}
use mathlib.Core.Path.{subst}
use uefi_game.BootManager.Entries.{BootEntry, set_field}
use uefi_game.BootManager.Icons.Making.{IsIcon}
use uefi_game.BootManager.Numbers.Rows.{Row, AreWide}
use uefi_game.BootManager.Walk.{cell_side}
use uefi_game.BootManager.Boot.{Platform}
use uefi_game.BootManager.Main.{two_d_config, sprite_txt, halved, uefi_main}
use uefi_game.BootManager.Main.Setup.{IsInstalled, config_of}
use uefi_game.BootManager.Main.Finish.{Loads}
use uefi_game.BootManager.Main.Whole.{Ends, two_d_main_lem}
use uefi_game.BootManager.Main.Drive.{HasSprite, IsPlayable}
use uefi_game.Tests.Icons.{
  efi, icon, icon-IsSupported, icon-Holds, pixels, pixels_room, arrays, grow, grow-Grows, repeated,
}
use uefi_game.Tests.Rounds.{round-IsReady, keys}
use uefi_game.Tests.Shelf.{
  sprite_text, shelf, shelf_lem, icon-Loaded, computer, halved_lem, kept_lem, computer-IsInstalled,
}

-- Twelve rows with an escape, and six of two free cells.
abbrev pub first : Row
first = record { first = 10; others = 0 ∷ [] }

abbrev pub others : List Row
others = replicate 11 first ++ replicate 6 (record { first = 0; others = 0 ∷ [] })

pub AreWide-append : (w : ℕ) (xs ys : List Row) → AreWide w xs → AreWide w ys → AreWide w (xs ++ ys)
AreWide-append w [] ys h g = g
AreWide-append w (x ∷ xs) ys h g = (h.0, AreWide-append w xs ys h.1 g)

pub AreWide-replicate :
    (w n : ℕ) (row : Row) → length row.others + 1 ≡ w → AreWide w (replicate n row)
AreWide-replicate w zero row e = tt
AreWide-replicate w (suc n) row e = (e, AreWide-replicate w n row e)

pub rows-AreWide : AreWide 2 (first ∷ others)
rows-AreWide = (
  refl,
  AreWide-append 2 (replicate 11 first) (replicate 6 (record { first = 0; others = 0 ∷ [] }))
      (AreWide-replicate 2 11 first refl)
      (AreWide-replicate 2 6 (record { first = 0; others = 0 ∷ [] }) refl),
)

abbrev pub pc : Platform
pc = computer (first ∷ others)

abbrev pub installed : IsInstalled pc two_d_config
installed = computer-IsInstalled two_d_config first others 2 refl rows-AreWide (omega arith)

loads : Loads pc
loads handle name good = (_, _, refl, refl)

sprite-HasSprite : HasSprite pc installed
unfolding computer-IsInstalled cell_side
sprite-HasSprite = record {
  text = sprite_text;
  w = 32;
  status = 0;
  broken = refl;
  first = λ k h e.
      let dot = get_elem?-append_left (repeated 32 b'.') (b'\n' ∷ repeated 1023 b'.') k h in
      absurd (omega (arith, some_inj (sym (dot ∙ get_elem?-replicate 32 k b'.' h) ∙ e)));
  small = omega arith;
  full = omega arith;
  read = shelf_lem (first ∷ others) sprite_txt sprite_text refl;
  fine = refl;
}

icons :
    (j : ℕ) (e : BootEntry)
    → get_elem? (config_of pc installed.entries).result j ≡ some e
    → IsIcon efi (shelf (first ∷ others)) pixels arrays grow 1 e cell_side cell_side
unfolding computer-IsInstalled cell_side set_field
icons zero e h =
    subst (λ d. IsIcon efi (shelf (first ∷ others)) pixels arrays grow 1 d 32 32) (some_inj h)
      (record {
        name = b'i' ∷ [];
        bytes = icon;
        start = 70;
        named = refl;
        loaded = icon-Loaded (first ∷ others) (b'i' ∷ []) refl;
        supported = icon-IsSupported;
        holds = icon-Holds;
      })
icons (suc j) e h = absurd cc

pub playable : IsPlayable pc installed
unfolding computer-IsInstalled cell_side
playable =
    let (ts, given, size, full) =
      kept_lem (halved pc) (first ∷ others) 1024 11
        (halved_lem (first ∷ others) (b'a' ∷ []) refl) in
    record {
      textures = ts;
      textured = record {
        success = refl;
        room = λ n. let e : n * 8 / 8 ≡ n = omega arith in ap (λ k. replicate k []) e;
        few = omega arith;
        given = given;
      };
      sprite = sprite-HasSprite;
      screen = (800, 600);
      shown = refl;
      room = pixels_room;
      grows = grow-Grows;
      ready = λ sprite h.
          round-IsReady (shelf (first ∷ others)) ts (config_of pc installed.entries).result sprite
            (record { count = sym size; start_le = omega arith; full = full }) (omega arith) icons
            h;
      loads = loads;
    }

two_d_main_lem_example : Returns (Ends pc installed playable) (uefi_main pc keys)
unfolding computer-IsInstalled
two_d_main_lem_example = two_d_main_lem pc installed playable keys (omega arith, tt)
