-- ===== src/BootManager/Walk/Ways.antt =====
-- Every entry that free cells lead to can be booted; and what a stale `MapValue` does.
use uefi_game.Prelude.{
  ℕ, ◌+◌, ◌-◌, ◌*◌, ◌≤◌, ◌≡◌, sym, ap, ◌∙◌, arith, true, false, List, [], ◌∷◌, ◌++◌, some, none,
  some_inj, Result, get_elem?, Returns, Returns-ok, Returns-map, Returns-cong,
}
use mathlib.Core.Path.{subst}
use uefi_game.Pixels.{Pixel}
use uefi_game.BootManager.Walk.{ScanCode, esc, KeyPress, Walk, Maze, step, walk_loop}
use uefi_game.BootManager.Walk.Moves.{Pos, pos, IsValid, Inside, Holds, toward}
use uefi_game.BootManager.Walk.Paths.{Drawable, Stepped, idle, stopped, walked, arrived, step_lem}
use uefi_game.BootManager.Walk.Session.{
  FreePath, here, next, FreePath-Inside, Leads, walk_on, walk-append,
}

module _ (maze : Maze) (zero_pool : ℕ → List Pixel) (textures : List (List Pixel))
    (sprite : List Pixel) (width_margin height_margin : ℕ) where
  open maze use {bootable_start as start}

  abbrev walk : List KeyPress → Walk → Result Walk
  walk = walk_loop maze zero_pool textures sprite width_margin height_margin

  abbrev press : ScanCode → List KeyPress
  press code = record { scan_code = code; stale = 0 } ∷ []

  module _ (valid : IsValid maze)
      (d : Drawable maze zero_pool textures sprite width_margin height_margin) where
    -- The player still plays, and stands at `p`.
    abbrev pub StandsAt : Pos → Walk → Type 0
    StandsAt p g = (pos g ≡ p) × (g.escaped ≡ false)

    one_step :
        (code : ScanCode) (p : Pos) (g : Walk)
        → StandsAt p g
        → Inside maze p
        → Returns
            (Stepped maze zero_pool textures sprite width_margin height_margin
              (record { scan_code = code; stale = 0 })
              g)
            (walk (press code) g)
    one_step code p g at i =
        let st =
          step_lem maze zero_pool textures sprite width_margin height_margin valid d
            (record { scan_code = code; stale = 0 }) g (subst (Inside maze) (sym at.0) i) in
        rw
          (
            walk_on maze zero_pool textures sprite width_margin height_margin
                (record { scan_code = code; stale = 0 }) [] g at.1,
            st.returns,
          )
          (unfold walk_loop in Returns-ok st.holds)

    same_cell :
        (code : ScanCode) (p q q' : Pos) (g : Walk)
        → pos g ≡ p
        → toward maze code p ≡ some q
        → toward maze code (pos g) ≡ some q'
        → q ≡ q'
    same_cell code p q q' g at to t = some_inj (sym to ∙ ap (toward maze code) (sym at) ∙ t)

    same_value : (q q' : Pos) (v u : ℕ) → q ≡ q' → Holds maze q v → Holds maze q' u → v ≡ u
    same_value q q' v u e h k =
        some_inj (sym h ∙ ap (λ (r : Pos). get_elem? maze.map (r.1 * maze.map_width + r.0)) e ∙ k)

    some_cell :
        (code : ScanCode) (p q : Pos) (g : Walk)
        → pos g ≡ p
        → toward maze code p ≡ some q
        → toward maze code (pos g) ≡ none
        → ⊥
    some_cell code p q g at to t = let e = sym to ∙ ap (toward maze code) (sym at) ∙ t in cc

    go_free :
        (code : ScanCode) (p q : Pos) (g g' : Walk)
        → pos g ≡ p
        → toward maze code p ≡ some q
        → Holds maze q 0
        → Stepped maze zero_pool textures sprite width_margin height_margin
            (record { scan_code = code; stale = 0 })
            g
            g'
        → StandsAt q g'
    go_free code p q g g' at to free (idle t e f h) = absurd (some_cell code p q g at to t)
    go_free code p q g g' at to free (stopped q' v t h w e f k) =
        absurd (w.0 (sym (same_value q q' 0 v (same_cell code p q q' g at to t) free h)))
    go_free code p q g g' at to free (walked q' t h e f k) =
        (e ∙ sym (same_cell code p q q' g at to t), f)
    go_free code p q g g' at to free (arrived q' v t h l e f k) = absurd (
        omega (arith, valid.textured, same_value q q' 0 v (same_cell code p q q' g at to t) free h))

    go_entry :
        (code : ScanCode) (p q : Pos) (v : ℕ) (g g' : Walk)
        → pos g ≡ p
        → toward maze code p ≡ some q
        → Holds maze q v
        → start ≤ v
        → Stepped maze zero_pool textures sprite width_margin height_margin
            (record { scan_code = code; stale = 0 })
            g
            g'
        → (g'.escaped ≡ true) × (g'.entry_to_boot ≡ v - start)
    go_entry code p q v g g' at to free above (idle t e f h) = absurd (some_cell code p q g at to t)
    go_entry code p q v g g' at to free above (stopped q' u t h w e f k) =
        absurd (omega (arith, w.1, same_value q q' v u (same_cell code p q q' g at to t) free h))
    go_entry code p q v g g' at to free above (walked q' t h e f k) = absurd (
        omega (arith, valid.textured, same_value q q' v 0 (same_cell code p q q' g at to t) free h))
    go_entry code p q v g g' at to free above (arrived q' u t h l e f k) = (
      f,
      k
          ∙ ap (λ (n : ℕ). n - start)
              (sym (same_value q q' v u (same_cell code p q q' g at to t) free h)),
    )

    walk_free :
        (from p : Pos) (g : Walk)
        → Inside maze from
        → StandsAt from g
        → FreePath maze from p
        → (keys : List KeyPress) × Returns (StandsAt p) (walk keys g)
    walk_free from p g i at here = ([], unfold walk_loop in Returns-ok at)
    walk_free from q g i at (next {p} path code to free) =
        let (keys, run) = walk_free from p g i at path in
        let st = one_step code p run.out run.holds (FreePath-Inside maze i path) in
        (
          keys ++ press code,
          Returns-cong
              (walk-append maze zero_pool textures sprite width_margin height_margin keys
                (press code) g)
              (rw (run.returns)
                (Returns-map st (λ g' s. go_free code p q run.out g' run.holds.0 to free s))),
        )

    -- On a valid maze with textures for its cells, every entry whose cell lies beside the end of a
    -- path of free cells can be booted: there are keys that end the game with it.
    pub walk_loop_boots :
        (from : Pos) (e : ℕ) (g : Walk)
        → Inside maze from
        → StandsAt from g
        → Leads maze from e
        → (keys : List KeyPress) × Returns
            (λ (g' : Walk). (g'.escaped ≡ true) × (g'.entry_to_boot ≡ e))
            (walk keys g)
    walk_loop_boots from e g i at l =
        let (keys, run) = walk_free from l.end g i at l.path in
        let st = one_step l.code l.end run.out run.holds (FreePath-Inside maze i l.path) in
        (
          keys ++ press l.code,
          Returns-cong
              (walk-append maze zero_pool textures sprite width_margin height_margin keys
                (press l.code) g)
              (rw (run.returns) (
                Returns-map st (λ g' s.
                  let r =
                    go_entry l.code l.end l.cell l.value run.out g' run.holds.0 l.beside l.holds
                      l.above s in
                  (r.0, r.1 ∙ sym l.entry)))),
        )

    -- The Escape key in a pass where the uninitialised `MapValue` holds `start` or more boots an
    -- entry that this value names, wherever the player stands.
    pub step_stale :
        (stale : ℕ) (g : Walk)
        → Inside maze (pos g)
        → start ≤ stale
        → Returns
            (λ (g' : Walk). (g'.escaped ≡ true) × (g'.entry_to_boot ≡ stale - start))
            (step maze zero_pool textures sprite width_margin height_margin
              (record { scan_code = esc; stale = stale })
              g)
    step_stale stale g i above =
        Returns-map
          (step_lem maze zero_pool textures sprite width_margin height_margin valid d
            (record { scan_code = esc; stale = stale }) g i)
          (λ g'. elim [
            | idle t e f h ↦ (ground arith, ground arith)
            | stopped q v t h w e f k ↦ absurd cc
            | walked q t h e f k ↦ absurd cc
            | arrived q v t h l e f k ↦ absurd cc
          ])
