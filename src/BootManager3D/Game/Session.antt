-- ===== src/BootManager3D/Game/Session.antt =====
-- A whole game in a walled map.
use uefi_game.Prelude.{
  ℕ, ◌+◌, ◌-◌, ◌≤◌, ◌≡◌, refl, sym, ◌∙◌, ◌⊎◌, inl, inr, Bool, true, false, List, [], ◌∷◌, ◌++◌,
  arith, leb, if◌then◌else◌, Bool-cases, length, some_inj, Result, ok, ◌>>=◌, Returns, Returns-ok,
  Returns-cong, Returns-bind,
}
use uefi_game.Doubles.{Doubles}
use uefi_game.Pixels.{Pixel}
use uefi_game.Console.{ScanCode, Blt}
use uefi_game.BootManager.Walk.{escape_entry}
use uefi_game.BootManager3D.View.{View, Level}
use uefi_game.BootManager3D.Floor.Halves.{HasImages, screen_size}
use uefi_game.BootManager3D.Rays.Ends.{Holds, IsWalled, Inner, value_at, cell_at_lem}
use uefi_game.BootManager3D.Walls.Columns.{IsTextured}
use uefi_game.BootManager3D.Game.{Tour, first_view, show, step, tour_loop}
use uefi_game.BootManager3D.Game.Frames.{frame_lem}
use uefi_game.BootManager3D.Game.Moves.{Lands, IsGuarded, IsSteady, Standing, act_lem}

below : (start v : ℕ) → start ≤ v → leb start v ≡ false → ⊥
below start v h e = ground arith

on_true : {A : Type 0} (b : Bool) (x y : A) → b ≡ true → (if b then x else y) ≡ x
on_true b x y e = rw e refl

on_false : {A : Type 0} (b : Bool) (x y : A) → b ≡ false → (if b then x else y) ≡ y
on_false b x y e = rw e refl

module _ (d : Doubles) (level : Level) (height : ℕ) (walled : IsWalled level height)
    (textures : List (List Pixel)) (textured : IsTextured level textures)
    (images : HasImages textures) (fuel : ℕ) (Fair : View d → Type 0)
    (steady : IsSteady level height walled d fuel Fair) (guarded : IsGuarded level height walled)
    (enough : level.map_width + height ≤ fuel) where
  abbrev Stands : View d → Type 0
  Stands v = Standing level height walled d fuel Fair steady guarded v

  -- Where a game stands, and what it has decided.
  pub record Playing (t : Tour d) : Type 0 where
    pub standing : Stands t.view
    pub size : length t.screen ≡ screen_size
    pub going :
        t.ready_to_boot ≡ false
        → Inner level height walled (d.to_int t.view.pos_y) (d.to_int t.view.pos_x)
          × (t.entry_to_boot ≡ escape_entry)
    pub decided :
        (t.entry_to_boot ≡ escape_entry)
        ⊎ ((v : ℕ) × Holds level (d.to_int t.view.pos_y) (d.to_int t.view.pos_x) v
            × (level.bootable_start ≤ v)
            × (t.entry_to_boot ≡ v - level.bootable_start))

  above : (start v : ℕ) → leb start v ≡ true → start ≤ v
  above start v e = ground arith

  -- A player in a cell that boots nothing is inside of the walls.
  stays :
      (y x v : ℕ)
      → Holds level y x v
      → Lands level height walled y x
      → leb level.bootable_start v ≡ false
      → Inner level height walled y x
  stays y x v h (i, inl inner) e = inner
  stays y x v h (i, inr (u, g, up)) e =
      let same : u ≡ v = some_inj (sym g ∙ h) in
      absurd (below level.bootable_start v (rw (← same) up) e)

  module _ (width_margin height_margin : ℕ) where
    show_lem :
        (t : Tour d)
        → Playing t
        → t.ready_to_boot ≡ false
        → (s : List Pixel) × (w : List Blt) × (length s ≡ screen_size)
          × (show d level textures fuel width_margin height_margin t
              ≡ ok (record t { screen = s; shown = w }))
    unfolding show
    show_lem t p e =
        let i = (p.going e).0 in
        let f =
          frame_lem d level height walled textures textured images t.view fuel t.screen i enough
            steady.rounded (steady.hits t.view p.standing.0 i) p.size in
        (
          f.out,
          t.shown ++ (record { image = f.out; to_x = width_margin; to_y = height_margin } ∷ []),
          f.holds.0,
          rw f.returns refl,
        )

    step_lem :
        (key : ScanCode) (t : Tour d)
        → Playing t
        → t.ready_to_boot ≡ false
        → Returns Playing (step d level textures fuel width_margin height_margin key t)
    unfolding step
    step_lem key t p e =
        let (i, fresh) = p.going e in
        let (screen, shown, size, drawn) = show_lem t p e in
        let a = act_lem level height walled d fuel Fair steady guarded key t.view p.standing.0 i in
        let w = a.out in
        let y = d.to_int w.pos_y in
        let x = d.to_int w.pos_x in
        let (v, h) = value_at level height walled y x a.holds.1.0 in
        let read = cell_at_lem level height walled y x v a.holds.1.0 h in
        elim (Bool-cases (leb level.bootable_start v)) [
          | inl boots ↦
              rw (drawn, a.returns, read, boots)
                (Returns-ok (record {
                  standing = a.holds;
                  size = size;
                  going = λ no. absurd (let c : true ≡ false = no in cc);
                  decided = inr (v, h, above level.bootable_start v boots, refl);
                }))
          | inr goes ↦
              rw (drawn, a.returns, read, goes)
                (Returns-ok (record {
                  standing = a.holds;
                  size = size;
                  going = λ no. (stays y x v h a.holds.1 goes, fresh);
                  decided = inl fresh;
                }))
        ]

    shown_lem :
        (t : Tour d)
        → Playing t
        → t.ready_to_boot ≡ false
        → Returns Playing (show d level textures fuel width_margin height_margin t)
    shown_lem t p e =
        let (screen, shown, size, drawn) = show_lem t p e in
        rw drawn (
          Returns-ok
            (record { standing = p.standing; size = size; going = p.going; decided = p.decided }))

    abbrev tour : List ScanCode → Tour d → Result (Tour d)
    tour = tour_loop d level textures fuel width_margin height_margin

    tour_stop : (keys : List ScanCode) (t : Tour d) → t.ready_to_boot ≡ true → tour keys t ≡ ok t
    unfolding tour_loop
    tour_stop [] t e = on_true t.ready_to_boot (ok t) _ e
    tour_stop (key ∷ keys) t e = on_true t.ready_to_boot (ok t) _ e

    tour_wait :
        (t : Tour d)
        → t.ready_to_boot ≡ false
        → tour [] t ≡ show d level textures fuel width_margin height_margin t
    unfolding tour_loop
    tour_wait t e = on_false t.ready_to_boot (ok t) _ e

    tour_on :
        (key : ScanCode) (keys : List ScanCode) (t : Tour d)
        → t.ready_to_boot ≡ false
        → tour (key ∷ keys) t
          ≡ (step d level textures fuel width_margin height_margin key t >>= tour keys)
    unfolding tour_loop
    tour_on key keys t e = on_false t.ready_to_boot (ok t) _ e

    tour_loop_lem : (keys : List ScanCode) (t : Tour d) → Playing t → Returns Playing (tour keys t)
    tour_loop_lem [] t p = elim (Bool-cases t.ready_to_boot) [
      | inl e ↦ Returns-cong (tour_stop [] t e) (Returns-ok p)
      | inr e ↦ Returns-cong (tour_wait t e) (shown_lem t p e)
    ]
    tour_loop_lem (key ∷ keys) t p = elim (Bool-cases t.ready_to_boot) [
      | inl e ↦ Returns-cong (tour_stop (key ∷ keys) t e) (Returns-ok p)
      | inr e ↦
          Returns-cong (tour_on key keys t e)
            (Returns-bind (tour keys) (step_lem key t p e) (λ u q. tour_loop_lem keys u q))
    ]

    -- In a walled map whose open cells form no corner, with textures for its positive cells, full images
    -- for the floor and the ceiling, enough fuel for the rays and doubles that are steady, a game from the
    -- first view that presses any keys makes no access out of bounds. It ends with the player on the map,
    -- inside of the walls unless the game is over, and it has decided for nothing, or for the boot entry
    -- whose cell the player stands in.
    pub game_safe :
        (keys : List ScanCode) (screen : List Pixel)
        → length screen ≡ screen_size
        → Inner level height walled (d.to_int (first_view d).pos_y) (d.to_int (first_view d).pos_x)
        → Returns Playing (
            tour_loop d level textures fuel width_margin height_margin keys (record {
              view = first_view d;
              screen = screen;
              ready_to_boot = false;
              entry_to_boot = escape_entry;
              shown = [];
            }))
    game_safe keys screen size inner = tour_loop_lem keys _ (record {
      standing = (steady.first, (omega arith, inl inner));
      size = size;
      going = λ e. (inner, refl);
      decided = inl refl;
    })
