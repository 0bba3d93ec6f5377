-- ===== src/BootManager/Round/Entry.antt =====
-- `Game`: what it gives back is an entry of the table.
use uefi_game.Prelude.{
  ℕ, ◌*◌, ◌<◌, ◌≡◌, sym, ◌∙◌, ◌⊎◌, inl, inr, true, some, List, [], ◌∷◌, arith, replicate, ok,
  Returns, Returns-map,
}
use mathlib.Core.Path.{subst}
use uefi_game.Efi.{Efi}
use uefi_game.Pixels.{Pixel, zero_pixel}
use uefi_game.BootManager.Files.{BootServices}
use uefi_game.BootManager.Icons.{make_boot_entry_texture}
use uefi_game.BootManager.Icons.Growth.{Grows}
use uefi_game.BootManager.Placement.{Placing, place_boot_entries}
use uefi_game.BootManager.Walk.{KeyPress, Walk, Maze, escape_entry}
use uefi_game.BootManager.Walk.Session.{AllHonest, Leads, Ending}
use uefi_game.BootManager.Walk.Game.{walk_maze_lem, walk_maze_boots}
use uefi_game.BootManager.Round.{Setting, margin, maze_game}
use uefi_game.BootManager.Round.Ready.{
  IsReady, after, after-IsValid, Places, place_lem, Places-Drawable,
}

ok_inj : {A : Type 0} {a b : A} → ok a ≡ ok b → a ≡ b
ok_inj e = cc

-- No pass finds a `MapValue` that nothing has set and that looks like a boot entry.
abbrev pub NoneStale : ℕ → List KeyPress → Type 0
NoneStale start [] = Unit {0}
NoneStale start (key ∷ keys) = (key.stale < start) × NoneStale start keys

honest_lem :
    (maze : Maze) (keys : List KeyPress) → NoneStale maze.bootable_start keys → AllHonest maze keys
honest_lem maze [] h = tt
honest_lem maze (key ∷ keys) h = (h.0, honest_lem maze keys h.1)

module _ (efi : Efi) (bs : BootServices) (zero_pool : ℕ → List Pixel) (pool : ℕ → List (List Pixel))
    (realloc : ℕ → ℕ → List (List Pixel) → List (List Pixel)) (self : ℕ) (rand : ℕ → ℕ)
    (room : (n : ℕ) → zero_pool (4 * n) ≡ replicate n zero_pixel) (grows : Grows pool realloc)
    (s : Setting) where
  open s use {
    map,
    map_width as w,
    map_height as h,
    boot_entries as entries,
    boot_entries_count as n,
    textures.{images, count as start},
  }

  module _ (ready : IsReady efi bs zero_pool pool realloc self rand room grows s) where
    -- How a game ends: on a placed map, and with an entry of the table if any.
    pub record Played (screen : ℕ × ℕ) (g : Walk) : Type 0 where
      pub placing : Placing (List Pixel)
      pub placed : Places efi bs zero_pool pool realloc self rand room grows s ready placing
      pub ends :
          Ending
            (after efi bs zero_pool pool realloc self rand room grows s ready placing)
            zero_pool
            placing.textures.images
            s.sprite
            (margin screen.0 w)
            (margin screen.1 h)
            (1, 17)
            g
      pub in_table : (g.entry_to_boot ≡ escape_entry) ⊎ (g.entry_to_boot < n)

    -- The map has the right size, holds texture numbers and exactly twelve escapes, and has the
    -- start inside; there are twelve entries at most, with icons of 64 by 64 pixels; the pool never
    -- runs out, and there are fewer than 2 ^ 59 textures; no pass boots by a stale map value. Then
    -- the whole game never faults: each boot entry has got an escape of its own, the game ends on
    -- that map beside a cell that free cells connect with the start, and what it returns is
    -- `ESCAPE_ENTRY` or the index of a boot entry.
    pub maze_game_lem :
        (screen : ℕ × ℕ) (keys : List KeyPress)
        → NoneStale start keys
        → Returns
            (Played screen)
            (maze_game efi bs zero_pool pool realloc self rand s (some screen) keys)
    unfolding maze_game
    maze_game_lem screen keys honest =
        let a = (place_lem efi bs zero_pool pool realloc self rand room grows s ready) in
        let p = a.out in
        let walked =
          walk_maze_lem (after efi bs zero_pool pool realloc self rand room grows s ready p)
            zero_pool p.textures.images s.sprite (margin screen.0 w) (margin screen.1 h)
            (after-IsValid efi bs zero_pool pool realloc self rand room grows s ready p
              a.holds.size)
            (Places-Drawable efi bs zero_pool pool realloc self rand room grows s ready p screen
              a.holds)
            keys ready.begins
            (honest_lem (after efi bs zero_pool pool realloc self rand room grows s ready p) keys
              honest) in
        rw a.returns (
          Returns-map walked (λ g e. record {
            placing = p;
            placed = a.holds;
            ends = e;
            in_table = elim e [
              | inl on_the_way ↦ inl on_the_way.1
              | inr booted ↦ inr (
                  omega (
                    arith,
                    booted.1.entry,
                    booted.1.above,
                    a.holds.below _ booted.1.value booted.1.holds,
                  ))
            ];
          }))

    -- `PlaceBootEntries` leaves this map and these textures.
    abbrev pub Leaves : Placing (List Pixel) → Type 0
    Leaves q =
        place_boot_entries (make_boot_entry_texture efi bs zero_pool pool realloc self) rand w h
          entries n map s.textures
        ≡ ok q

    pub Leaves-Places :
        (q : Placing (List Pixel))
        → Leaves q
        → Places efi bs zero_pool pool realloc self rand room grows s ready q
    Leaves-Places q place =
        subst (Places efi bs zero_pool pool realloc self rand room grows s ready)
          (ok_inj (
            sym (place_lem efi bs zero_pool pool realloc self rand room grows s ready).returns
            ∙ place))
          (place_lem efi bs zero_pool pool realloc self rand room grows s ready).holds

    -- On the map with the boot entries, an entry whose cell lies beside the end of a path of free
    -- cells from the start has keys that end the whole game with it.
    pub maze_game_boots :
        (screen : ℕ × ℕ) (q : Placing (List Pixel)) (e : ℕ)
        → Leaves q
        → Places efi bs zero_pool pool realloc self rand room grows s ready q
        → Leads (after efi bs zero_pool pool realloc self rand room grows s ready q) (1, 17) e
        → (e < n)
          × ((keys : List KeyPress) × Returns
                (λ (g : Walk). (g.escaped ≡ true) × (g.entry_to_boot ≡ e))
                (maze_game efi bs zero_pool pool realloc self rand s (some screen) keys))
    unfolding maze_game
    maze_game_boots screen q e place a l =
        let (keys, walked) =
          walk_maze_boots (after efi bs zero_pool pool realloc self rand room grows s ready q)
            zero_pool q.textures.images s.sprite (margin screen.0 w) (margin screen.1 h)
            (after-IsValid efi bs zero_pool pool realloc self rand room grows s ready q a.size)
            (Places-Drawable efi bs zero_pool pool realloc self rand room grows s ready q screen a)
            e ready.begins l in
        (omega (arith, l.entry, l.above, a.below _ l.value l.holds), (keys, rw place walked))
