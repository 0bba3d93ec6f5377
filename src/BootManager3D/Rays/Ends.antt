-- ===== src/BootManager3D/Rays/Ends.antt =====
-- Every ray in a walled map ends, whatever the doubles say.
use uefi_game.Prelude.{
  ℕ, zero, suc, ◌+◌, ◌-◌, ◌*◌, ◌%◌, ◌^◌, ◌≤◌, ◌<◌, ◌≡◌, refl, sym, ap, ◌∙◌, ◌⊎◌, inl, inr, true,
  false, Option, some, arith, ◌==◌, if◌then◌else◌, Bool-cases, wrap_lem, length, get_elem?,
  some_inj, get_elem?-of_lt, ok, Returns, Returns-ok, row_major_lt,
}
use uefi_game.Doubles.{Doubles}
use uefi_game.Int32.{extend_lem}
use uefi_game.BootManager3D.View.{View, Level, cell_at}
use uefi_game.BootManager3D.Rays.{
  Ray, minus_one, is_positive, step_of, start_ray, next_cell, walk_ray,
}

-- The value in column `x` of row `y`.
abbrev pub Holds : Level → ℕ → ℕ → ℕ → Type 0
Holds level y x v = get_elem? level.map (y * level.map_width + x) ≡ some v

-- A map of `height` rows with positive cells all around.
pub record IsWalled (level : Level) (height : ℕ) : Type 0 where
  pub size : length level.map ≡ height * level.map_width
  pub wide : level.map_width < 2 ^ 31
  pub high : height < 2 ^ 31
  pub walls :
      (y x : ℕ)
      → y < height
      → x < level.map_width
      → (y ≡ 0) ⊎ (x ≡ 0) ⊎ (y + 1 ≡ height) ⊎ (x + 1 ≡ level.map_width)
      → (v : ℕ) × Holds level y x v × (is_positive v ≡ true)

module _ (level : Level) (height : ℕ) (walled : IsWalled level height) where
  open level use {map_width as width}

  abbrev pub Inside : ℕ → ℕ → Type 0
  Inside y x = (y < height) × (x < width)

  -- Inside of the walls.
  abbrev pub Inner : ℕ → ℕ → Type 0
  Inner y x = (0 < y) × (y + 1 < height) × (0 < x) × (x + 1 < width)

  pub value_at : (y x : ℕ) → Inside y x → (v : ℕ) × Holds level y x v
  value_at y x i =
      get_elem?-of_lt level.map (y * width + x)
        (rw walled.size (row_major_lt height width (y, x) i))

  area : height * width < 2 ^ 62
  area = let w = walled.wide in let h = walled.high in grind arith

  pub cell_at_lem : (y x v : ℕ) → Inside y x → Holds level y x v → cell_at level y x ≡ ok v
  unfolding cell_at
  cell_at_lem y x v i h =
      let low = row_major_lt height width (y, x) i in
      let w = walled.wide in
      let t = walled.high in
      let a = area in
      rw (
        extend_lem y (omega arith),
        extend_lem x (omega arith),
        wrap_lem (y * width + x) (omega arith),
        h,
      )

  pub inner-or :
      (y x : ℕ) → Inside y x → Inner y x ⊎ ((y ≡ 0) ⊎ (x ≡ 0) ⊎ (y + 1 ≡ height) ⊎ (x + 1 ≡ width))
  inner-or y x i = omega arith

  module _ (d : Doubles) where
    -- A ray that steps by one cell.
    pub record Steps (r : Ray d) : Type 0 where
      pub x_step : (r.step_x ≡ 1) ⊎ (r.step_x ≡ minus_one)
      pub y_step : (r.step_y ≡ 1) ⊎ (r.step_y ≡ minus_one)

    -- The cells to go in one direction.
    togo : ℕ → ℕ → ℕ → ℕ
    togo step at size = if step == 1 then size - 1 - at else at

    abbrev ahead : Ray d → ℕ
    ahead r = togo r.step_x r.map_x width + togo r.step_y r.map_y height

    one_step :
        (step at size : ℕ)
        → (step ≡ 1) ⊎ (step ≡ minus_one)
        → 0 < at
        → at + 1 < size
        → size < 2 ^ 31
        → ((at + step) % 2 ^ 32 < size)
          × (togo step ((at + step) % 2 ^ 32) size + 1 ≡ togo step at size)
    unfolding togo
    one_step step at size (inl e) h k s = rw e (omega arith)
    one_step step at size (inr e) h k s = rw e (omega arith)

    -- The next cell is on the map, one nearer to the wall.
    record Nears (r n : Ray d) : Type 0 where
      inside : Inside n.map_y n.map_x
      steps : Steps n
      nearer : ahead n + 1 ≡ ahead r
      beside :
          Inner n.map_y n.map_x
          ⊎ ((n.map_y ≡ 0) ⊎ (n.map_x ≡ 0) ⊎ (n.map_y + 1 ≡ height) ⊎ (n.map_x + 1 ≡ width))

    next_cell-Nears : (r : Ray d) → Steps r → Inner r.map_y r.map_x → Nears r (next_cell d r)
    unfolding next_cell
    next_cell-Nears r s i =
        let w = walled.wide in
        let h = walled.high in
        let x = one_step r.step_x r.map_x width s.x_step (omega arith) (omega arith) w in
        let y = one_step r.step_y r.map_y height s.y_step (omega arith) (omega arith) h in
        elim (Bool-cases (d.less r.side_dist_x r.side_dist_y)) [
          | inl e ↦ rw e (record {
            inside = (omega arith, x.0);
            steps = record { x_step = s.x_step; y_step = s.y_step };
            nearer = omega arith;
            beside = inner-or r.map_y ((r.map_x + r.step_x) % 2 ^ 32) (omega arith, x.0);
          })
          | inr e ↦ rw e (record {
            inside = (y.0, omega arith);
            steps = record { x_step = s.x_step; y_step = s.y_step };
            nearer = omega arith;
            beside = inner-or ((r.map_y + r.step_y) % 2 ^ 32) r.map_x (y.0, omega arith);
          })
        ]

    -- The cell that a ray meets.
    pub record Meets (o : Option (Ray d)) : Type 0 where
      pub ray : Ray d
      pub found : o ≡ some ray
      pub inside : Inside ray.map_y ray.map_x
      pub value : ℕ
      pub holds : Holds level ray.map_y ray.map_x value
      pub positive : is_positive value ≡ true

    met :
        (r : Ray d) (v : ℕ)
        → Inside r.map_y r.map_x
        → Holds level r.map_y r.map_x v
        → is_positive v ≡ true
        → Meets (some r)
    met r v i h p = record { ray = r; found = refl; inside = i; value = v; holds = h; positive = p }

    walk_lem :
        (fuel : ℕ) (r : Ray d)
        → Steps r
        → Inner r.map_y r.map_x
        → ahead r ≤ fuel
        → Returns Meets (walk_ray d level fuel r)
    unfolding walk_ray
    walk_lem zero r s i m = let n = next_cell-Nears r s i in absurd (omega (arith, n.nearer))
    walk_lem (suc fuel) r s i m =
        let n = next_cell-Nears r s i in
        let next = next_cell d r in
        let (v, h) = value_at next.map_y next.map_x n.inside in
        let read = cell_at_lem next.map_y next.map_x v n.inside h in
        elim (Bool-cases (is_positive v)) [
          | inl hit ↦ rw (read, hit) (Returns-ok (met next v n.inside h hit))
          | inr on ↦ elim n.beside [
            | inl inner ↦ rw (read, on) (walk_lem fuel next n.steps inner (omega (arith, n.nearer)))
            | inr edge ↦
                let (u, g, p) = walled.walls next.map_y next.map_x n.inside.0 n.inside.1 edge in
                let same : u ≡ v = some_inj (sym g ∙ h) in
                absurd (let no : true ≡ false = sym p ∙ ap is_positive same ∙ on in cc)
          ]
        ]

    step_of-cases : (dir : d.Double) → (step_of d dir ≡ 1) ⊎ (step_of d dir ≡ minus_one)
    unfolding step_of
    step_of-cases dir = elim (Bool-cases (d.less dir (d.of_int 0))) [
      | inl e ↦ inr (rw e)
      | inr e ↦ inl (rw e)
    ]

    start_ray-Steps : (v : View d) (x : ℕ) → Steps (start_ray d v x)
    unfolding start_ray
    start_ray-Steps v x = record { x_step = step_of-cases _; y_step = step_of-cases _ }

    togo-le : (step at size : ℕ) → at < size → togo step at size ≤ size
    unfolding togo
    togo-le step at size h = ground arith

    -- In a map with walls all around, from a view inside of them, the ray of every column meets a
    -- cell with a positive value after as many steps as the map has rows and columns, or fewer, and
    -- reads no cell outside of the map. This holds for all doubles.
    pub walk_ray_lem :
        (v : View d) (x fuel : ℕ)
        → Inner (d.to_int v.pos_y) (d.to_int v.pos_x)
        → width + height ≤ fuel
        → Returns Meets (walk_ray d level fuel (start_ray d v x))
    unfolding start_ray
    walk_ray_lem v x fuel i enough =
        let r = start_ray d v x in
        let gx = togo-le r.step_x r.map_x width (omega arith) in
        let gy = togo-le r.step_y r.map_y height (omega arith) in
        walk_lem fuel r (start_ray-Steps v x) i (omega arith)
