-- ===== src/Maze/Picture/Layout.antt =====
-- Where the pixels of a cell stand in the buffer.
use uefi_game.Prelude.{
  ℕ, ◌+◌, ◌-◌, ◌*◌, ◌/◌, ◌≤◌, ◌<◌, ◌≡◌, refl, sym, ap, ◌∙◌, ◌≢◌, ◌⊎◌, inl, inr, arith, ltb,
  if◌then◌else◌, Bool-cases, ok, Returns, Returns-ok, row_major_lt, row_major_inj,
}
use native.Mathlib.Nat.{div-mul-le_self}
use uefi_game.Maze.Level.{Maze}
use uefi_game.Maze.Picture.{Geometry, divide, geometry}

-- A pixel of a cell: the row and the column of the cell, and those in the cell.
pub record Spot : Type 0 where
  pub i : ℕ
  pub j : ℕ
  pub a : ℕ
  pub b : ℕ

pub Spot_ext : (s t : Spot) → s.i ≡ t.i → s.j ≡ t.j → s.a ≡ t.a → s.b ≡ t.b → s ≡ t
Spot_ext s t e0 e1 e2 e3 = cc

-- The maze fits on the screen, with the margins around it.
pub record Fits (width height : ℕ) (maze : Maze) (g : Geometry) : Type 0 where
  pub wide : g.width_margin + g.cell_side * maze.width ≤ width
  pub high : g.height_margin + g.cell_side * maze.height ≤ height
  pub offset : g.offset ≡ g.height_margin * width + g.width_margin

half_le : (n : ℕ) → n / 2 ≤ n
half_le n = omega arith

fits_margin : (n m : ℕ) → m ≤ n → (n - m) / 2 + m ≤ n
fits_margin n m h = omega arith

divide_lem : (a b : ℕ) → b ≢ 0 → divide a b ≡ ok (a / b)
unfolding divide
divide_lem a b h = ground arith

smaller : (a b : ℕ) → ((if ltb a b then a else b) ≤ a) × ((if ltb a b then a else b) ≤ b)
smaller a b = (ground arith, ground arith)

-- A cell is as large as the screen allows for the whole maze, in both directions.
pub record Largest (width height : ℕ) (maze : Maze) (g : Geometry) : Type 0 where
  pub fits : Fits width height maze g
  pub side : (g.cell_side ≡ width / maze.width) ⊎ (g.cell_side ≡ height / maze.height)

times_le : (n m c : ℕ) → c ≤ n / m → c * m ≤ n
times_le n m c h = let d = div-mul-le_self n m in grind arith

-- On a maze with a row and a column `UefiMain` finds a place for it on the screen: with the margins
-- the cells stay inside the screen, and in one direction they are as large as it allows.
pub geometry_lem :
    (width height : ℕ) (maze : Maze)
    → maze.width ≢ 0
    → maze.height ≢ 0
    → Returns (Largest width height maze) (geometry width height maze)
unfolding geometry
geometry_lem width height maze hw hh =
    let cw = width / maze.width in
    let ch = height / maze.height in
    let s = smaller cw ch in
    let side = if ltb cw ch then cw else ch in
    let w = times_le width maze.width side s.0 in
    let h = times_le height maze.height side s.1 in
    rw (divide_lem width maze.width hw, divide_lem height maze.height hh)
      (Returns-ok (record {
        fits = record {
          wide = fits_margin width (side * maze.width) w;
          high = fits_margin height (side * maze.height) h;
          offset = refl;
        };
        side = elim (Bool-cases (ltb cw ch)) [ inl e ↦ inl (rw e) | inr e ↦ inr (rw e) ];
      }))

module _ (width height : ℕ) (maze : Maze) (g : Geometry) (fits : Fits width height maze g) where
  abbrev pub InMaze : Spot → Type 0
  InMaze s = (s.i < maze.height) × (s.j < maze.width) × (s.a < g.cell_side) × (s.b < g.cell_side)

  -- The row and the column on the screen.
  abbrev pub row : Spot → ℕ
  row s = g.height_margin + (g.cell_side * s.i + s.a)

  abbrev pub column : Spot → ℕ
  column s = g.width_margin + (g.cell_side * s.j + s.b)

  abbrev pub spot : Spot → ℕ
  spot s = g.offset + width * (g.cell_side * s.i + s.a) + g.cell_side * s.j + s.b

  pub spot_lem : (s : Spot) → spot s ≡ row s * width + column s
  spot_lem s = let o = fits.offset in grind arith

  inner_lt : (c n i a : ℕ) → i < n → a < c → c * i + a < c * n
  inner_lt c n i a hi ha = grind arith

  pub row_lt : (s : Spot) → InMaze s → row s < height
  row_lt s h =
      let f = fits.high in let l = inner_lt g.cell_side maze.height s.i s.a h.0 h.2 in omega arith

  pub column_lt : (s : Spot) → InMaze s → column s < width
  column_lt s h =
      let f = fits.wide in let l = inner_lt g.cell_side maze.width s.j s.b h.1 h.3 in omega arith

  pub spot_lt : (s : Spot) → InMaze s → spot s < height * width
  spot_lt s h =
      rw (spot_lem s) (row_major_lt height width (row s, column s) (row_lt s h, column_lt s h))

  pub spot_inj : (s t : Spot) → InMaze s → InMaze t → spot s ≡ spot t → s ≡ t
  spot_inj s t h k e =
      let same =
        row_major_inj width (row s, column s) (row t, column t) (column_lt s h) (column_lt t k)
          (sym (spot_lem s) ∙ e ∙ spot_lem t) in
      let rows : g.cell_side * s.i + s.a ≡ g.cell_side * t.i + t.a =
        let r = ap (λ (r : ℕ × ℕ). r.0) same in omega arith in
      let columns : g.cell_side * s.j + s.b ≡ g.cell_side * t.j + t.b =
        let r = ap (λ (r : ℕ × ℕ). r.1) same in omega arith in
      let ia = row_major_inj g.cell_side (s.i, s.a) (t.i, t.a) h.2 k.2 (grind arith) in
      let jb = row_major_inj g.cell_side (s.j, s.b) (t.j, t.b) h.3 k.3 (grind arith) in
      let e0 : s.i ≡ t.i = ap (λ (r : ℕ × ℕ). r.0) ia in
      let e1 : s.j ≡ t.j = ap (λ (r : ℕ × ℕ). r.0) jb in
      let e2 : s.a ≡ t.a = ap (λ (r : ℕ × ℕ). r.1) ia in
      let e3 : s.b ≡ t.b = ap (λ (r : ℕ × ℕ). r.1) jb in Spot_ext s t e0 e1 e2 e3
