-- ===== src/Maze/Walk/Session.antt =====
-- Where a walk can lead.
use uefi_game.Prelude.{
  ℕ, ◌+◌, ◌-◌, ◌*◌, ◌<◌, ◌≡◌, refl, sym, ap, ◌∙◌, inl, inr, Bool, true, false, ◌&&◌, ◌||◌, some,
  List, [], ◌∷◌, arith, ℕ_discrete, ◌==◌, Bool-cases, ==→ne, length, get_elem?, some_inj,
  get_elem?-of_lt, Result, ok, Returns, Returns-ok, row_major_lt,
}
use uefi_game.Pixels.{Pixel}
use uefi_game.Console.{ScanCode, up, down, left, right, esc, other}
use uefi_game.Maze.Level.{MazeCellType, Maze, wall}
use uefi_game.Maze.Picture.{Geometry}
use uefi_game.Maze.Walk.{
  KeyPress, Walk, Look, again, go, is_wall, try_cell, look, pass, step, walk_loop,
}

-- A column and a row.
pub record Pos : Type 0 where
  pub x : ℕ
  pub y : ℕ

abbrev pub pos : Walk → Pos
pos w = record { x = w.pos_x; y = w.pos_y }

abbrev pub Holds : Maze → Pos → MazeCellType → Type 0
Holds maze p t = get_elem? maze.maze_cells (p.y * maze.width + p.x) ≡ some t

abbrev pub Free : Maze → Pos → Type 0
Free maze p = (t : MazeCellType) × Holds maze p t × (is_wall t ≡ false)

-- All cells are there, and those of the last row and of the last column are walls.
pub record IsClosed (maze : Maze) : Type 0 where
  pub cells : length maze.maze_cells ≡ maze.height * maze.width
  pub last_row : (p : Pos) → p.y + 1 ≡ maze.height → p.x < maze.width → Holds maze p wall
  pub last_column : (p : Pos) → p.x + 1 ≡ maze.width → p.y < maze.height → Holds maze p wall

abbrev pub Inside : Maze → Pos → Type 0
Inside maze p = (p.x < maze.width) × (p.y < maze.height)

-- The neighbour that a key points to.
pub data Beside (maze : Maze) (p : Pos) : ScanCode → Pos → Type 0 where
  above : 0 < p.y → Beside maze p up (record { x = p.x; y = p.y - 1 })
  below : Beside maze p down (record { x = p.x; y = p.y + 1 })
  before : 0 < p.x → Beside maze p left (record { x = p.x - 1; y = p.y })
  behind : Beside maze p right (record { x = p.x + 1; y = p.y })

-- A path over free cells of the maze.
pub data FreePath (maze : Maze) (from : Pos) : Pos → Type 0 where
  here : FreePath maze from from
  next :
      {code : ScanCode} {p q : Pos}
      → FreePath maze from p
      → Beside maze p code q
      → Inside maze q
      → Free maze q
      → FreePath maze from q

-- What a key does at `p`.
pub data Looked (maze : Maze) (p : Pos) (code : ScanCode) : Look → Type 0 where
  stops : Looked maze p code again
  rests : (leaves : Bool) → Looked maze p code (go p.x p.y leaves)
  moves :
      (q : Pos)
      → Beside maze p code q
      → Inside maze q
      → Free maze q
      → Looked maze p code (go q.x q.y false)

module _ (maze : Maze) (closed : IsClosed maze) where
  -- A free cell of a closed maze is neither in its last row nor in its last column.
  Free-inner :
      (p : Pos) → Inside maze p → Free maze p → (p.x + 1 < maze.width) × (p.y + 1 < maze.height)
  Free-inner p i (t, h, f) = (
    elim (ℕ_discrete (p.x + 1) maze.width) [
      | yes e ↦
          let w = some_inj (sym (closed.last_column p e i.1) ∙ h) in
          let k : true ≡ false = ap is_wall w ∙ f in absurd cc
      | no ne ↦ omega arith
    ],
    elim (ℕ_discrete (p.y + 1) maze.height) [
      | yes e ↦
          let w = some_inj (sym (closed.last_row p e i.0) ∙ h) in
          let k : true ≡ false = ap is_wall w ∙ f in absurd cc
      | no ne ↦ omega arith
    ],
  )

  try_cell_lem :
      (p q : Pos) (code : ScanCode) (at : ℕ)
      → Beside maze p code q
      → Inside maze q
      → at ≡ q.y * maze.width + q.x
      → Returns (Looked maze p code) (try_cell maze at q.x q.y)
  unfolding try_cell
  try_cell_lem p q code at b i e =
      let (t, h) =
        get_elem?-of_lt maze.maze_cells (q.y * maze.width + q.x)
          (rw closed.cells (row_major_lt maze.height maze.width (q.y, q.x) (i.1, i.0))) in
      rw (e, h)
        (elim (Bool-cases (is_wall t)) [
          | inl w ↦ rw w (Returns-ok stops)
          | inr f ↦ rw f (Returns-ok (moves q b i (t, h, f)))
        ])

  pub look_lem :
      (code : ScanCode) (p : Pos)
      → Inside maze p
      → Free maze p
      → Returns (Looked maze p code) (look maze code p.x p.y)
  unfolding look
  look_lem up p i f = elim (Bool-cases (p.y == 0)) [
    | inl e ↦ rw e (Returns-ok stops)
    | inr e ↦
        let ne = ==→ne p.y 0 e in
        rw e (
          try_cell_lem p (record { x = p.x; y = p.y - 1 }) up ((p.y - 1) * maze.width + p.x)
            (above (omega arith)) (omega arith) refl)
  ]
  look_lem down p i f =
      let n = Free-inner p i f in
      let e : (p.y == maze.height) ≡ false = ground arith in
      rw e (
        try_cell_lem p (record { x = p.x; y = p.y + 1 }) down ((p.y + 1) * maze.width + p.x) below
          (omega arith) refl)
  look_lem left p i f = elim (Bool-cases (p.x == 0)) [
    | inl e ↦ rw e (Returns-ok stops)
    | inr e ↦
        let ne = ==→ne p.x 0 e in
        rw e (
          try_cell_lem p (record { x = p.x - 1; y = p.y }) left (p.y * maze.width + p.x - 1)
            (before (omega arith)) (omega arith) (omega arith))
  ]
  look_lem right p i f =
      let n = Free-inner p i f in
      let e : (p.x == maze.width) ≡ false = ground arith in
      rw e (
        try_cell_lem p (record { x = p.x + 1; y = p.y }) right (p.y * maze.width + p.x + 1) behind
          (omega arith) (omega arith))
  look_lem esc p i f = Returns-ok (rests true)
  look_lem other p i f = Returns-ok (rests false)

  try-Free :
      (q : Pos) (at : ℕ)
      → Free maze q
      → at ≡ q.y * maze.width + q.x
      → try_cell maze at q.x q.y ≡ ok (go q.x q.y false)
  unfolding try_cell
  try-Free q at (t, h, f) e = rw (e, h, f) refl

  -- A key that points to a free cell leads there.
  pub look-Free :
      (code : ScanCode) (p q : Pos)
      → Inside maze p
      → Beside maze p code q
      → Inside maze q
      → Free maze q
      → look maze code p.x p.y ≡ ok (go q.x q.y false)
  unfolding look
  look-Free code p q i (above low) j f =
      let e : (p.y == 0) ≡ false = ground arith in
      rw e (try-Free q ((p.y - 1) * maze.width + p.x) f refl)
  look-Free code p q i below j f =
      let e : (p.y == maze.height) ≡ false = ground arith in
      rw e (try-Free q ((p.y + 1) * maze.width + p.x) f refl)
  look-Free code p q i (before low) j f =
      let e : (p.x == 0) ≡ false = ground arith in
      rw e (try-Free q (p.y * maze.width + p.x - 1) f (omega arith))
  look-Free code p q i behind j f =
      let e : (p.x == maze.width) ≡ false = ground arith in
      rw e (try-Free q (p.y * maze.width + p.x + 1) f (omega arith))

  pub path-Inside : {from p : Pos} → Inside maze from → FreePath maze from p → Inside maze p
  path-Inside i here = i
  path-Inside i (next path b inside f) = inside

  pub path-Free : {from p : Pos} → Free maze from → FreePath maze from p → Free maze p
  path-Free f here = f
  path-Free f (next path b inside g) = g

  module _ (g : Geometry) (empty_cell actor : List Pixel) (end : Pos) where
    abbrev walk : List KeyPress → Walk → Result Walk
    walk = walk_loop maze g empty_cell actor end.x end.y

    abbrev press : KeyPress → Walk → Result Walk
    press = step maze g empty_cell actor end.x end.y

    -- The player stands on a cell that free cells connect with `from`, and has arrived only at the
    -- end of the maze.
    abbrev pub Reached : Pos → Walk → Type 0
    Reached from w = FreePath maze from (pos w) × ((w.arrived ≡ true) → pos w ≡ end)

    at_end : (x y : ℕ) → ((x == end.x && y == end.y) ≡ true) → record { x = x; y = y } ≡ end
    at_end x y h = let ex : x ≡ end.x = ground arith in let ey : y ≡ end.y = ground arith in cc

    pass-Reached :
        (from : Pos) (l : Look) (code : ScanCode) (status : ℕ) (w : Walk)
        → Reached from w
        → Looked maze (pos w) code l
        → Reached from (pass maze g empty_cell actor end.x end.y l status w)
    unfolding pass
    pass-Reached from again code status w r stops = r
    pass-Reached from l code status w r (rests leaves) = (r.0, at_end w.pos_x w.pos_y)
    pass-Reached from l code status w r (moves q b i f) = (next r.0 b i f, at_end q.x q.y)

    -- In a closed maze, from a free cell, the walk never leaves the map, whatever is pressed: it
    -- returns, the player stands on a cell that free cells connect with the first one, and the walk
    -- has arrived only if this is the end of the maze.
    pub walk_loop-Reached :
        (from : Pos) (keys : List KeyPress) (w : Walk)
        → Inside maze from
        → Free maze from
        → Reached from w
        → Returns (Reached from) (walk keys w)
    unfolding walk_loop step
    walk_loop-Reached from [] w i f r = Returns-ok r
    walk_loop-Reached from (key ∷ keys) w i f r = elim (Bool-cases (w.escaped || w.arrived)) [
      | inl e ↦ rw e (Returns-ok r)
      | inr e ↦
          let l = look_lem key.scan_code (pos w) (path-Inside i r.0) (path-Free f r.0) in
          rw (e, l.returns)
            (walk_loop-Reached from keys
              (pass maze g empty_cell actor end.x end.y l.out key.status w) i f
              (pass-Reached from l.out key.scan_code key.status w r l.holds))
    ]
