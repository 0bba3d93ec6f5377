-- ===== src/Tests/Adventures.antt =====
-- Application/BootManager3D/src/DemoGame.c: a whole game, in a map with one open row, of a free cell and
-- twelve escapes, and with one boot entry.
use uefi_game.Prelude.{
  ◌≤◌, ℕ, zero, suc, ◌+◌, ◌-◌, ◌*◌, ◌≤◌, ◌<◌, ◌≡◌, refl, sym, ◌∙◌, ◌⊎◌, inl, inr, some, List, [],
  ◌∷◌, ◌++◌, arith, length, replicate, get_elem?, some_inj, get_elem?-of_lt,
}
use mathlib.Core.Path.{subst}
use uefi_game.Pixels.{Pixel, zero_pixel}
use uefi_game.BootManager.Files.{BootServices}
use uefi_game.BootManager.Icons.Arrays.{AreTextures}
use uefi_game.BootManager.Entries.{BootEntry}
use uefi_game.BootManager.Placement.{is_escape}
use uefi_game.BootManager.Walk.{cell_side}
use uefi_game.BootManager3D.View.{tex_width, tex_height, Level}
use uefi_game.BootManager3D.Icons.Making.{HasIcon}
use uefi_game.BootManager3D.Rays.Ends.{IsWalled}
use uefi_game.BootManager3D.Game.{Setting, first_view}
use uefi_game.BootManager3D.Game.Placed.{tex_area, MayOpen, IsGuardedBefore}
use uefi_game.BootManager3D.Game.Whole.{IsReady}
use uefi_game.Tests.Icons.{
  efi, disk, icon, pixels, pixels_room, arrays, grow, grow-Grows, entry, entry-IsIcon, repeated,
}
use uefi_game.Tests.Views.{append-cases, hundredths, Rightward, rightward-IsSteady, replicate_at}

abbrev pub cells : List ℕ
cells = repeated 256 2 ++ 0 ∷ repeated 12 10 ++ repeated 16 2

abbrev pub setting : List (List Pixel) → List BootEntry → Setting hundredths
setting images entries = record {
  map = cells;
  map_width = 15;
  map_height = 19;
  textures = record { images = images; count = 11 };
  boot_entries = entries;
  boot_entries_count = 1;
}

abbrev before : Level
before = record { map = cells; map_width = 15; bootable_start = 11 }

after_start :
    (k v : ℕ)
    → get_elem? (0 ∷ repeated 12 10 ++ repeated 16 2) k ≡ some v
    → (k < 13) × (v < 11) ⊎ (13 ≤ k) × (v ≡ 2)
after_start zero v e = inl (omega arith, omega (arith, some_inj e))
after_start (suc k) v e = elim (append-cases (repeated 12 10) (repeated 16 2) k v e) [
  | inl h ↦ let r = replicate_at 12 10 k h in inl (omega (arith, r.0), omega (arith, r.1))
  | inr (le, h) ↦ let r = replicate_at 16 2 (k - 12) h in inr (omega arith, r.1)
]

-- The row that is open, and the walls.
value-of :
    (k v : ℕ)
    → get_elem? cells k ≡ some v
    → (256 ≤ k) × (k < 269) × (v < 11) ⊎ ((k < 256) ⊎ (269 ≤ k)) × (v ≡ 2)
value-of k v e = elim (append-cases (repeated 256 2) (0 ∷ repeated 12 10 ++ repeated 16 2) k v e) [
  | inl h ↦ let r = replicate_at 256 2 k h in inr (inl r.0, r.1)
  | inr (le, h) ↦ elim (after_start (k - 256) v h) [
    | inl (low, small) ↦ inl (omega arith, omega arith, small)
    | inr (high, same) ↦ inr (inr (omega arith), same)
  ]
]

before-IsWalled : IsWalled before 19
before-IsWalled = record {
  size = refl;
  wide = omega arith;
  high = omega arith;
  walls = λ y x hy hx edge.
      let (v, e) = get_elem?-of_lt cells (y * 15 + x) (omega arith) in
      (
        v,
        e,
        elim (value-of (y * 15 + x) v e) [
          | inl (le, lt, _) ↦ absurd (omega arith)
          | inr (_, same) ↦ rw same refl
        ],
      );
}

may_open : (y x : ℕ) → x < 15 → MayOpen before y x → y ≡ 17
unfolding is_escape
may_open y x hx (v, e, free) = elim (value-of (y * 15 + x) v e) [
  | inl (le, lt, _) ↦ omega arith
  | inr (_, same) ↦ elim free [
    | inl zero_there ↦ absurd (omega arith)
    | inr escape ↦ absurd (ground arith)
  ]
]

before-IsGuarded : IsGuardedBefore before 19 before-IsWalled
before-IsGuarded y x ly lx inner ny nx row column oy ox =
    absurd (row (may_open ly x (omega arith) oy ∙ sym (may_open y lx (omega arith) ox)))

pub adventure-IsReady :
    (bs : BootServices) (images : List (List Pixel)) (entries : List BootEntry)
    → AreTextures tex_area 11 (record { images = images; count = 11 })
    → 1 ≤ length entries
    → ((j : ℕ) (e : BootEntry)
        → get_elem? entries j ≡ some e
        → HasIcon efi bs pixels arrays grow 1 e tex_height tex_width)
    → IsReady hundredths efi bs pixels arrays grow 1
        (λ i. 5)
        34
        pixels_room
        grow-Grows
        (setting images entries)
        Rightward
unfolding is_escape first_view
adventure-IsReady bs images entries textured counted icons = record {
  walled = before-IsWalled;
  guarded = before-IsGuarded;
  begins = omega arith;
  textured = textured;
  pictures = omega arith;
  few_textures = omega arith;
  fresh = λ k c e. elim (value-of k c e) [ inl (_, _, low) ↦ low | inr (_, same) ↦ omega arith ];
  twelve = refl;
  few = omega arith;
  counted = counted;
  icons = icons;
  enough = omega arith;
  steady = λ level walled e. rightward-IsSteady level 19 walled 34;
}

abbrev images : List (List Pixel)
images = replicate 11 (replicate 4096 zero_pixel)

icons :
    (j : ℕ) (e : BootEntry)
    → get_elem? (entry ∷ []) j ≡ some e
    → HasIcon efi (disk icon) pixels arrays grow 1 e tex_height tex_width
unfolding cell_side
icons zero e h =
    subst (λ d. HasIcon efi (disk icon) pixels arrays grow 1 d tex_height tex_width) (some_inj h)
      (record {
        name = entry-IsIcon.name;
        bytes = entry-IsIcon.bytes;
        start = entry-IsIcon.start;
        named = entry-IsIcon.named;
        loaded = entry-IsIcon.loaded;
        supported = entry-IsIcon.supported;
        holds = entry-IsIcon.holds;
      })
icons (suc j) e h = absurd cc
