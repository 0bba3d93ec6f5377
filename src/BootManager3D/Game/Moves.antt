-- ===== src/BootManager3D/Game/Moves.antt =====
-- What a key does to a view inside of the walls.
use uefi_game.Prelude.{
  ℕ, ◌+◌, ◌^◌, ◌≤◌, ◌<◌, ◌≡◌, sym, ap, ◌∙◌, ◌≢◌, ◌⊎◌, inl, inr, true, ◌||◌, arith, ℕ_discrete, leb,
  ◌==◌, Bool-cases, some_inj, Returns, Returns-ok,
}
use uefi_game.Doubles.{Doubles}
use uefi_game.Doubles.Laws.{IsSmall, Rises, Falls, IsRounded}
use uefi_game.Console.{ScanCode, up, down, left, right, esc, other}
use uefi_game.BootManager3D.View.{View, Level}
use uefi_game.BootManager3D.Rays.{is_positive}
use uefi_game.BootManager3D.Rays.Ends.{
  Holds, IsWalled, Inside, Inner, inner-or, value_at, cell_at_lem,
}
use uefi_game.BootManager3D.Walls.Columns.{AllEndOnMap}
use uefi_game.BootManager3D.Game.{is_free, ahead, onward, rot_speed, move, turn, act, first_view}

-- The same cell or one beside it.
abbrev pub Near : ℕ → ℕ → Type 0
Near a b = (b ≡ a) ⊎ (b ≡ a + 1) ⊎ (b + 1 ≡ a)

-- A cell that the player may enter.
abbrev pub Opens : Level → ℕ → ℕ → Type 0
Opens level y x = (v : ℕ) × Holds level y x v × (is_free level v ≡ true)

-- A cell that stands for a boot entry.
abbrev pub Boots : Level → ℕ → ℕ → Type 0
Boots level y x = (v : ℕ) × Holds level y x v × (level.bootable_start ≤ v)

boots-of : (start v : ℕ) → is_positive v ≡ true → (v == 0 || leb start v) ≡ true → start ≤ v
boots-of start v p f = ground arith

module _ (level : Level) (height : ℕ) (walled : IsWalled level height) where
  -- Between two cells beside the player that are open there is no corner of the walls.
  abbrev pub IsGuarded : Type 0
  IsGuarded =
      (y x ly lx : ℕ)
      → Inner level height walled y x
      → Near y ly
      → Near x lx
      → ly ≢ y
      → lx ≢ x
      → Opens level ly x
      → Opens level y lx
      → Inner level height walled ly lx ⊎ Boots level ly lx

  -- Where the player may stand.
  abbrev pub Lands : ℕ → ℕ → Type 0
  Lands y x = Inside level height walled y x × (Inner level height walled y x ⊎ Boots level y x)

  open_lem : (y x : ℕ) → Inside level height walled y x → Opens level y x → Lands y x
  open_lem y x i (v, h, f) = (
    i,
    elim (inner-or level height walled y x i) [
      | inl inner ↦ inl inner
      | inr edge ↦
          let (u, g, p) = walled.walls y x i.0 i.1 edge in
          let same : u ≡ v = some_inj (sym g ∙ h) in
          inr (v, h, boots-of level.bootable_start v (ap is_positive (sym same) ∙ p) f)
    ],
  )

  corner_lem :
      IsGuarded
      → (y x ly lx : ℕ) → Inner level height walled y x
      → Near y ly
      → Near x lx
      → Opens level ly x
      → Opens level y lx
      → Lands ly lx
  corner_lem guarded y x ly lx inner ny nx oy ox = elim (ℕ_discrete ly y) [
    | yes e ↦ rw e (open_lem y lx (omega arith) ox)
    | no row ↦ elim (ℕ_discrete lx x) [
      | yes e ↦ rw e (open_lem ly x (omega arith) oy)
      | no column ↦ (omega arith, guarded y x ly lx inner ny nx row column oy ox)
    ]
  ]

  module _ (d : Doubles) where
    -- What a step along `op` does to a view: the code looks at the cell of the player or one beside it,
    -- and the player stays in the cell or comes to that one.
    pub record Goes (op : d.Double → d.Double → d.Double) (v : View d) : Type 0 where
      pub near_y : Near (d.to_int v.pos_y) (d.to_int (ahead d op v.pos_y v.dir_y))
      pub near_x : Near (d.to_int v.pos_x) (d.to_int (ahead d op v.pos_x v.dir_x))
      pub onto_y :
          (d.to_int (onward d op v.pos_y v.dir_y) ≡ d.to_int v.pos_y)
          ⊎ (d.to_int (onward d op v.pos_y v.dir_y) ≡ d.to_int (ahead d op v.pos_y v.dir_y))
      pub onto_x :
          (d.to_int (onward d op v.pos_x v.dir_x) ≡ d.to_int v.pos_x)
          ⊎ (d.to_int (onward d op v.pos_x v.dir_x) ≡ d.to_int (ahead d op v.pos_x v.dir_x))

    -- `double`s are rounded. `Fair` holds of the first view, and depends on its direction only,
    -- which turning keeps fair; a fair direction is small, and the rays of a fair view inside of the
    -- walls end on the map.
    pub record IsSteady (fuel : ℕ) (Fair : View d → Type 0) : Type 0 where
      pub rounded : IsRounded d
      pub first : Fair (first_view d)
      pub turns :
          (v : View d)
          → Fair v
          → Fair (turn d (d.negate (rot_speed d)) v) × Fair (turn d (rot_speed d) v)
      pub moves : (v : View d) (y x : d.Double) → Fair v → Fair (record v { pos_y = y; pos_x = x })
      pub small : (v : View d) → Fair v → IsSmall d v.dir_y × IsSmall d v.dir_x
      pub hits :
          (v : View d)
          → Fair v
          → Inner level height walled (d.to_int v.pos_y) (d.to_int v.pos_x)
          → AllEndOnMap d level fuel v

    module _ (rounded : IsRounded d) where
      -- Along one coordinate.
      abbrev pub GoesAlong : (d.Double → d.Double → d.Double) → d.Double → d.Double → Type 0
      GoesAlong op pos dir =
          Near (d.to_int pos) (d.to_int (ahead d op pos dir))
          × ((d.to_int (onward d op pos dir) ≡ d.to_int pos)
              ⊎ (d.to_int (onward d op pos dir) ≡ d.to_int (ahead d op pos dir)))

      rises : (a s l : ℕ) → Rises d a s l → Near a l × ((s ≡ a) ⊎ (s ≡ l))
      rises a s l h = omega (arith, h.0, h.1, h.2)

      falls : (a s l : ℕ) → Falls d a s l → Near a l × ((s ≡ a) ⊎ (s ≡ l))
      falls a s l h = omega (arith, h.0, h.1, h.2)

      plus_lem :
          (pos dir : d.Double)
          → IsSmall d dir
          → 1 ≤ d.to_int pos
          → d.to_int pos + 2 < 2 ^ 31
          → GoesAlong d.plus pos dir
      plus_lem pos dir small low high =
          let l = rounded.literals in
          elim (rounded.total dir small) [
            | inl above ↦
                let s = rounded.scale_up dir _ _ above small.1 l.0 l.1 l.2 in
                rises _ _ _ (rounded.plus_up pos _ _ low high s.0 s.1 s.2)
            | inr below ↦
                let s = rounded.scale_down dir _ _ small.0 below l.0 l.1 l.2 in
                falls _ _ _ (rounded.plus_down pos _ _ low high s.0 s.1 s.2)
          ]

      minus_lem :
          (pos dir : d.Double)
          → IsSmall d dir
          → 1 ≤ d.to_int pos
          → d.to_int pos + 2 < 2 ^ 31
          → GoesAlong d.minus pos dir
      minus_lem pos dir small low high =
          let l = rounded.literals in
          elim (rounded.total dir small) [
            | inl above ↦
                let s = rounded.scale_up dir _ _ above small.1 l.0 l.1 l.2 in
                falls _ _ _ (rounded.minus_down pos _ _ low high s.0 s.1 s.2)
            | inr below ↦
                let s = rounded.scale_down dir _ _ small.0 below l.0 l.1 l.2 in
                rises _ _ _ (rounded.minus_up pos _ _ low high s.0 s.1 s.2)
          ]

      -- Both steps go to a cell that the code looks at.
      goes_lem :
          (v : View d)
          → IsSmall d v.dir_y × IsSmall d v.dir_x
          → Inner level height walled (d.to_int v.pos_y) (d.to_int v.pos_x)
          → Goes d.plus v × Goes d.minus v
      goes_lem v small i =
          let w = walled.wide in
          let h = walled.high in
          let py = plus_lem v.pos_y v.dir_y small.0 (omega arith) (omega arith) in
          let px = plus_lem v.pos_x v.dir_x small.1 (omega arith) (omega arith) in
          let my = minus_lem v.pos_y v.dir_y small.0 (omega arith) (omega arith) in
          let mx = minus_lem v.pos_x v.dir_x small.1 (omega arith) (omega arith) in
          (
            record { near_y = py.0; near_x = px.0; onto_y = py.1; onto_x = px.1 },
            record { near_y = my.0; near_x = mx.0; onto_y = my.1; onto_x = mx.1 },
          )

    module _ (fuel : ℕ) (Fair : View d → Type 0) (steady : IsSteady fuel Fair)
        (guarded : IsGuarded) where
      abbrev pub Standing : View d → Type 0
      Standing v = Fair v × Lands (d.to_int v.pos_y) (d.to_int v.pos_x)

      module _ (op : d.Double → d.Double → d.Double) (v : View d) (f : Fair v)
          (i : Inner level height walled (d.to_int v.pos_y) (d.to_int v.pos_x))
          (g : Goes op v) where
        abbrev ly : ℕ
        ly = d.to_int (ahead d op v.pos_y v.dir_y)

        abbrev lx : ℕ
        lx = d.to_int (ahead d op v.pos_x v.dir_x)

        beside_y : Inside level height walled ly (d.to_int v.pos_x)
        beside_y = let n = g.near_y in omega arith

        beside_x : Inside level height walled (d.to_int v.pos_y) lx
        beside_x = let n = g.near_x in omega arith

        here_lem : Lands (d.to_int v.pos_y) (d.to_int v.pos_x)
        here_lem = (omega arith, inl i)

        down_lem :
            Opens level ly (d.to_int v.pos_x)
            → Lands (d.to_int (onward d op v.pos_y v.dir_y)) (d.to_int v.pos_x)
        down_lem o = elim g.onto_y [
          | inl e ↦ rw e here_lem
          | inr e ↦ rw e (open_lem ly (d.to_int v.pos_x) beside_y o)
        ]

        beside_lem :
            Opens level (d.to_int v.pos_y) lx
            → Lands (d.to_int v.pos_y) (d.to_int (onward d op v.pos_x v.dir_x))
        beside_lem o = elim g.onto_x [
          | inl e ↦ rw e here_lem
          | inr e ↦ rw e (open_lem (d.to_int v.pos_y) lx beside_x o)
        ]

        both_lem :
            Opens level ly (d.to_int v.pos_x)
            → Opens level (d.to_int v.pos_y) lx
            → Lands
                (d.to_int (onward d op v.pos_y v.dir_y))
                (d.to_int (onward d op v.pos_x v.dir_x))
        both_lem oy ox = elim g.onto_y [
          | inl e ↦ rw e (beside_lem ox)
          | inr e ↦ elim g.onto_x [
            | inl e' ↦ rw (e, e') (open_lem ly (d.to_int v.pos_x) beside_y oy)
            | inr e' ↦
                rw (e, e')
                  (corner_lem guarded (d.to_int v.pos_y) (d.to_int v.pos_x) ly lx i g.near_y
                    g.near_x oy ox)
          ]
        ]

        move_lem : Returns Standing (move d level op v)
        unfolding move
        move_lem =
            let (vy, hy) = value_at level height walled ly (d.to_int v.pos_x) beside_y in
            let (vx, hx) = value_at level height walled (d.to_int v.pos_y) lx beside_x in
            let ry = cell_at_lem level height walled ly (d.to_int v.pos_x) vy beside_y hy in
            let rx = cell_at_lem level height walled (d.to_int v.pos_y) lx vx beside_x hx in
            elim (Bool-cases (is_free level vy)) [
              | inl a ↦ elim (Bool-cases (is_free level vx)) [
                | inl b ↦
                    rw (ry, rx, a, b)
                      (Returns-ok (steady.moves v _ _ f, both_lem (vy, hy, a) (vx, hx, b)))
                | inr b ↦
                    rw (ry, rx, a, b) (Returns-ok (steady.moves v _ _ f, down_lem (vy, hy, a)))
              ]
              | inr a ↦ elim (Bool-cases (is_free level vx)) [
                | inl b ↦
                    rw (ry, rx, a, b) (Returns-ok (steady.moves v _ _ f, beside_lem (vx, hx, b)))
                | inr b ↦ rw (ry, rx, a, b) (Returns-ok (f, here_lem))
              ]
            ]

      pub act_lem :
          (key : ScanCode) (v : View d)
          → Fair v
          → Inner level height walled (d.to_int v.pos_y) (d.to_int v.pos_x)
          → Returns Standing (act d level key v)
      unfolding act
      act_lem up v f i = move_lem d.plus v f i (goes_lem steady.rounded v (steady.small v f) i).0
      act_lem down v f i = move_lem d.minus v f i (goes_lem steady.rounded v (steady.small v f) i).1
      act_lem left v f i = Returns-ok ((steady.turns v f).0, (omega arith, inl i))
      act_lem right v f i = Returns-ok ((steady.turns v f).1, (omega arith, inl i))
      act_lem esc v f i = Returns-ok (f, (omega arith, inl i))
      act_lem other v f i = Returns-ok (f, (omega arith, inl i))
