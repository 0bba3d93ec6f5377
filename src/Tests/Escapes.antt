-- ===== src/Tests/Escapes.antt =====
-- Application/BootManager2D/src/Main.c: the boot entry of Startups can be booted, wherever the placement
-- has put it.
use uefi_game.Prelude.{
  ℕ, zero, suc, ◌+◌, ◌-◌, ◌*◌, ◌/◌, ◌<◌, ◌≡◌, refl, ap, ◌∙◌, ◌≢◌, inl, inr, true, false, some, List,
  arith, dec_lt, ◌==◌, get_elem?, get_elem?-of_lt, Returns,
}
use mathlib.Core.Path.{subst}
use uefi_game.Console.{up, left}
use uefi_game.Pixels.{Pixel}
use uefi_game.BootManager.Placement.{Placing, is_escape}
use uefi_game.BootManager.Walk.{KeyPress}
use uefi_game.BootManager.Walk.Session.{FreePath, here, next, Leads}
use uefi_game.BootManager.Main.{uefi_main}
use uefi_game.BootManager.Main.Whole.{IsPlaced, placing_lem, maze_of, BootsEntry, two_d_main_boots}
use uefi_game.Tests.Shelf.{computer-IsInstalled}
use uefi_game.Tests.Rounds.{cell_at}
use uefi_game.Tests.Startups.{pc, installed, playable}

escape_low : (c : ℕ) → is_escape 11 c ≡ true → c ≢ 0
unfolding is_escape
escape_low c e same = ground arith

abbrev map_after : Placing (List Pixel)
map_after = (placing_lem pc installed playable).0

placed : IsPlaced pc installed playable map_after
placed = (placing_lem pc installed playable).2

-- The cell of the entry.
the_cell : (y : ℕ) × (y < 12) × (get_elem? map_after.map (y * 2) ≡ some 11)
unfolding computer-IsInstalled
the_cell =
    let (k, c, now, old, escape) = placed.placed 0 (omega arith) in
    elim (cell_at k c old) [
      | inl free ↦ absurd (escape_low c escape free)
      | inr (even, low, same) ↦
          let e : k / 2 * 2 ≡ k = omega arith in
          (k / 2, omega arith, ap (get_elem? map_after.map) e ∙ now)
    ]

-- The cells of the second column are free.
free_cell : (y : ℕ) → y < 18 → get_elem? map_after.map (y * 2 + 1) ≡ some 0
unfolding computer-IsInstalled
free_cell y h =
    let k = y * 2 + 1 in
    let (v, e) = get_elem?-of_lt map_after.map k (omega (arith, placed.size)) in
    let low = placed.below k v e in
    elim (dec_lt v 11) [
      | yes old ↦ elim (cell_at k v (placed.kept k v e old)) [
        | inl free ↦ e ∙ ap some free
        | inr (even, _, same) ↦ absurd (omega arith)
      ]
      | no new ↦
          let (y', _, there) = the_cell in
          let eleven : v ≡ 11 = omega arith in
          let same = placed.once k (y' * 2) 11 (e ∙ ap some eleven) there (omega arith) in
          absurd (omega arith)
    ]

path : (d y : ℕ) → y + d ≡ 17 → FreePath (maze_of pc installed playable map_after) (1, 17) (1, y)
unfolding computer-IsInstalled
path zero y e =
    let top : 17 ≡ y = omega arith in
    subst (λ n. FreePath (maze_of pc installed playable map_after) (1, 17) (1, n)) top here
path (suc d) y e =
    let one : y + 1 - 1 ≡ y = omega arith in
    let above : (y + 1 == 0) ≡ false = ground arith in
    next (path d (y + 1) (omega arith)) up (rw (above, one) refl) (free_cell y (omega arith))

entry-Leads : Leads (maze_of pc installed playable map_after) (1, 17) 0
unfolding computer-IsInstalled
entry-Leads =
    let (y, low, there) = the_cell in
    record {
      end = (1, y);
      path = path (17 - y) y (omega arith);
      code = left;
      cell = (0, y);
      value = 11;
      beside = refl;
      holds = let e : y * 2 + 0 ≡ y * 2 = omega arith in rw e there;
      above = omega arith;
      entry = refl;
    }

two_d_main_boots_example :
    (keys : List KeyPress) × Returns (BootsEntry pc installed playable 0) (uefi_main pc keys)
two_d_main_boots_example =
    two_d_main_boots pc installed playable map_after 0 (placing_lem pc installed playable).1
      entry-Leads
