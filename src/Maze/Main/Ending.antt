-- ===== src/Maze/Main/Ending.antt =====
-- `UefiMain`: what it boots, and when.
use uefi_game.Prelude.{
  ℕ, ◌≡◌, refl, sym, inl, inr, true, some, List, Bool-cases, get_elem?, ok, ◌>>=◌, Returns,
  Returns-ok,
}
use mathlib.Core.Path.{subst}
use uefi_game.Pixels.{Pixel}
use uefi_game.Disk.{Firmware, FileData}
use uefi_game.Maze.Level.{MazeCellType, Maze, start}
use uefi_game.Maze.Walk.{KeyPress, Walk, walk_loop}
use uefi_game.Maze.Walk.Session.{Pos, pos, Inside, FreePath, here, walk_loop-Reached}
use uefi_game.Maze.Walk.Ways.{walk_loop_arrives}
use uefi_game.Maze.Main.{Scene, Outcome, waits, returns, boots, prepare, begin, finish, uefi_main}
use uefi_game.Maze.Main.Preparing.{Playable, Ready, prepare_lem}

module _ (fw : Firmware) (maze_pool : ℕ → List MazeCellType) (pixel_pool : ℕ → List Pixel)
    (hor ver : ℕ) (labyrinth sprite : FileData) (maze : Maze) (from to : Pos)
    (h : Playable fw maze_pool pixel_pool hor ver labyrinth sprite maze from to) where
  main_eq :
      {O : Type 0} (boot_options : List O) (keys : List KeyPress) (s : Scene)
      → prepare fw maze_pool pixel_pool (hor, ver) ≡ ok s
      → Ready fw maze_pool pixel_pool hor ver labyrinth sprite maze from to h s
      → uefi_main fw maze_pool pixel_pool (some (hor, ver)) boot_options keys ≡ (
          walk_loop maze s.place s.buffers.empty_cell s.buffers.actor to.x to.y keys
            (begin fw maze_pool pixel_pool s)
          >>= finish fw maze_pool pixel_pool boot_options)
  unfolding uefi_main
  main_eq boot_options keys s e r = rw (e, ← r.0, ← r.3, ← r.4) refl

  begins :
      (s : Scene)
      → Ready fw maze_pool pixel_pool hor ver labyrinth sprite maze from to h s
      → pos (begin fw maze_pool pixel_pool s) ≡ from
  begins s r = let ex = r.1 in let ey = r.2 in cc

  -- What `UefiMain` may do: it boots nothing but the fourth boot option, and that only if free
  -- cells connect the start with the end.
  abbrev pub Allowed : {O : Type 0} → List O → Outcome O → Type 0
  Allowed options waits = Unit
  Allowed options (returns status) = Unit
  Allowed options (boots o status) = (get_elem? options 3 ≡ some o) × FreePath maze from to

  finish_lem :
      {O : Type 0} (options : List O) (o : O) (w : Walk)
      → get_elem? options 3 ≡ some o
      → ((w.arrived ≡ true) → FreePath maze from to)
      → Returns (Allowed options) (finish fw maze_pool pixel_pool options w)
  unfolding finish
  finish_lem options o w e path = elim (Bool-cases w.escaped) [
    | inl leaves ↦ rw leaves (Returns-ok tt)
    | inr stays ↦ elim (Bool-cases w.arrived) [
      | inl there ↦ rw (stays, there, e) (Returns-ok (e, path there))
      | inr not_there ↦ rw (stays, not_there) (Returns-ok tt)
    ]
  ]

  -- With a playable maze and four boot options `UefiMain` never faults, whatever is pressed. It
  -- boots nothing but the fourth option, and that only if free cells connect the start of the
  -- maze with its end. (Playable: `width * height` is below 2 ^ 31, the pool has room, both files
  -- are on the volume, the maze is closed, has one start and one end and cells for at least one
  -- pixel, and the sprite can be painted in a cell.)
  pub uefi_main_lem :
      {O : Type 0} (boot_options : List O) (o : O) (keys : List KeyPress)
      → get_elem? boot_options 3 ≡ some o
      → Returns
          (Allowed boot_options)
          (uefi_main fw maze_pool pixel_pool (some (hor, ver)) boot_options keys)
  uefi_main_lem boot_options o keys e =
      let p = prepare_lem fw maze_pool pixel_pool hor ver labyrinth sprite maze from to h in
      let s = p.out in
      let w = begin fw maze_pool pixel_pool s in
      let at = begins s p.holds in
      let run =
        walk_loop-Reached maze h.closed s.place s.buffers.empty_cell s.buffers.actor to from keys w
          h.from_inside (start, h.from_start, refl)
          (subst (FreePath maze from) (sym at) here, λ no. absurd cc) in
      rw (main_eq boot_options keys s p.returns p.holds, run.returns)
        (finish_lem boot_options o run.out e
          (λ there. subst (FreePath maze from) (run.holds.1 there) run.holds.0))

  -- With a playable maze (as in `uefi_main_lem`) and four boot options, if free cells connect the
  -- start of the maze with its end, there are keys with which `UefiMain` boots the fourth option.
  pub uefi_main_boots :
      {O : Type 0} (boot_options : List O) (o : O)
      → get_elem? boot_options 3 ≡ some o
      → FreePath maze from to
      → (keys : List KeyPress) × Returns
          (λ (r : Outcome O). (status : ℕ) × (r ≡ boots o status))
          (uefi_main fw maze_pool pixel_pool (some (hor, ver)) boot_options keys)
  unfolding finish
  uefi_main_boots boot_options o e path =
      let p = prepare_lem fw maze_pool pixel_pool hor ver labyrinth sprite maze from to h in
      let s = p.out in
      let w = begin fw maze_pool pixel_pool s in
      let at = begins s p.holds in
      let (keys, run) =
        walk_loop_arrives maze s.place s.buffers.empty_cell s.buffers.actor to h.closed w
          (subst (Inside maze) (sym at) h.from_inside) refl
          (subst (λ (q : Pos). FreePath maze q to) (sym at) path) in
      (
        keys,
        rw (main_eq boot_options keys s p.returns p.holds, run.returns, run.holds.1, run.holds.0, e)
            (Returns-ok (run.out.status, refl)),
      )
