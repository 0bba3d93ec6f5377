-- ===== src/Maze/Picture/Spots.antt =====
-- One pixel of the picture of the maze.
use uefi_game.Prelude.{
  ℕ, ◌+◌, ◌*◌, ◌<◌, ◌≡◌, refl, sym, ap, ◌∙◌, ◌≢◌, ◌⊎◌, inl, inr, some, List, arith, ℕ_discrete,
  length, get_elem?, set, some_inj, get_elem?-of_lt, lt-of_get_elem?, get_or, get_elem?-eq-get_or,
  ok, Returns, store_lem, Touches, Touches-same, Touches-join, Touches-set, row_major_lt,
}
use uefi_game.Pixels.{Pixel}
use uefi_game.Maze.Level.{MazeCellType, Maze, empty, wall, start, end, unknown}
use uefi_game.Maze.Picture.{Geometry, Picture, paint_type, note_cell, draw_pixel}
use uefi_game.Maze.Picture.Layout.{Spot, Spot_ext, Fits, InMaze, spot, spot_lt, spot_inj}

-- The cell in column `j` of row `i`.
abbrev pub cell_at : Maze → ℕ → ℕ → MazeCellType
cell_at maze i j = get_or maze.maze_cells (i * maze.width + j) empty

-- At most one cell of the maze is of type `t`.
abbrev pub Single : MazeCellType → Maze → Type 0
Single t maze =
    (i j k l : ℕ)
    → i < maze.height
    → j < maze.width
    → k < maze.height
    → l < maze.width
    → cell_at maze i j ≡ t
    → cell_at maze k l ≡ t
    → (i ≡ k) × (j ≡ l)

module _ (width height : ℕ) (maze : Maze) (g : Geometry) (fits : Fits width height maze g)
    (cells : length maze.maze_cells ≡ maze.height * maze.width) (one_start : Single start maze)
    (one_end : Single end maze) where
  abbrev pub In : Spot → Type 0
  In = InMaze width height maze g fits

  abbrev pub at : Spot → ℕ
  at = spot width height maze g fits

  abbrev pub type_of : Spot → MazeCellType
  type_of s = cell_at maze s.i s.j

  abbrev pub paint : Spot → Pixel → Pixel
  paint s = paint_type (type_of s)

  -- The pixels that are drawn before pixel `b` of row `a` of cell `j` of row `i`.
  abbrev pub Before : ℕ → ℕ → ℕ → ℕ → Spot → Type 0
  Before i j a b s =
      In s × ((s.i < i) ⊎ (s.i ≡ i) × ((s.j < j) ⊎ (s.j ≡ j) × ((s.a < a) ⊎ (s.a ≡ a) × (s.b < b))))

  -- The picture with the spots of `D` drawn.
  pub record Drawn (pixels : List Pixel) (D : Spot → Type 0) (p : Picture) : Type 0 where
    pub touches : Touches at paint D pixels p.pixels
    pub starts : (s : Spot) → D s → type_of s ≡ start → (p.pos_x ≡ s.j) × (p.pos_y ≡ s.i)
    pub ends : (s : Spot) → D s → type_of s ≡ end → (p.end_x ≡ s.j) × (p.end_y ≡ s.i)

  pub Drawn-same :
      {pixels : List Pixel} {D E : Spot → Type 0} (p : Picture)
      → Drawn pixels D p
      → ((s : Spot) → E s → D s)
      → ((s : Spot) → D s → E s)
      → Drawn pixels E p
  Drawn-same p d back forth = record {
    touches = Touches-same at paint d.touches back forth;
    starts = λ s e. d.starts s (back s e);
    ends = λ s e. d.ends s (back s e);
  }

  -- What a case notes of the start and of the end.
  note_start :
      (t : MazeCellType) (i j : ℕ) (p : Picture)
      → (t ≡ start) × ((note_cell t i j p).pos_x ≡ j) × ((note_cell t i j p).pos_y ≡ i)
        ⊎ (t ≢ start)
          × ((note_cell t i j p).pos_x ≡ p.pos_x)
          × ((note_cell t i j p).pos_y ≡ p.pos_y)
  note_start empty i j p = inr ((λ e. absurd cc), refl, refl)
  note_start wall i j p = inr ((λ e. absurd cc), refl, refl)
  note_start start i j p = inl (refl, refl, refl)
  note_start end i j p = inr ((λ e. absurd cc), refl, refl)
  note_start unknown i j p = inr ((λ e. absurd cc), refl, refl)

  note_end :
      (t : MazeCellType) (i j : ℕ) (p : Picture)
      → (t ≡ end) × ((note_cell t i j p).end_x ≡ j) × ((note_cell t i j p).end_y ≡ i)
        ⊎ (t ≢ end) × ((note_cell t i j p).end_x ≡ p.end_x) × ((note_cell t i j p).end_y ≡ p.end_y)
  note_end empty i j p = inr ((λ e. absurd cc), refl, refl)
  note_end wall i j p = inr ((λ e. absurd cc), refl, refl)
  note_end start i j p = inr ((λ e. absurd cc), refl, refl)
  note_end end i j p = inl (refl, refl, refl)
  note_end unknown i j p = inr ((λ e. absurd cc), refl, refl)

  module _ (pixels : List Pixel) (room : length pixels ≡ height * width) where
    abbrev after : ℕ → ℕ → ℕ → ℕ → Pixel → Picture → Picture
    after i j a b old p = record (note_cell (cell_at maze i j) i j p) {
      pixels =
          set p.pixels (at (record { i = i; j = j; a = a; b = b }))
            (paint_type (cell_at maze i j) old);
    }

    draw_pixel_lem :
        (i j a b : ℕ) (p : Picture) (old : Pixel)
        → In (record { i = i; j = j; a = a; b = b })
        → get_elem? p.pixels (at (record { i = i; j = j; a = a; b = b })) ≡ some old
        → draw_pixel width maze g i j a b p ≡ ok (after i j a b old p)
    unfolding draw_pixel
    draw_pixel_lem i j a b p old h e =
        rw
          (
            get_elem?-eq-get_or maze.maze_cells (i * maze.width + j) empty
                (rw cells (row_major_lt maze.height maze.width (i, j) (h.0, h.1))),
            e,
            store_lem p.pixels (at (record { i = i; j = j; a = a; b = b }))
                (paint_type (cell_at maze i j) old) (lt-of_get_elem? p.pixels _ e),
          )
          refl

    split_lem :
        (i j a b : ℕ) (s : Spot)
        → Before i j a (b + 1) s
        → Before i j a b s ⊎ (s ≡ record { i = i; j = j; a = a; b = b })
    split_lem i j a b s (h, inl x) = inl (h, inl x)
    split_lem i j a b s (h, inr (ei, inl x)) = inl (h, inr (ei, inl x))
    split_lem i j a b s (h, inr (ei, inr (ej, inl x))) = inl (h, inr (ei, inr (ej, inl x)))
    split_lem i j a b s (h, inr (ei, inr (ej, inr (ea, x)))) = elim (ℕ_discrete s.b b) [
      | yes e ↦ inr (Spot_ext s (record { i = i; j = j; a = a; b = b }) ei ej ea e)
      | no ne ↦ inl (h, inr (ei, inr (ej, inr (ea, omega arith))))
    ]

    grow_lem : (i j a b : ℕ) (s : Spot) → Before i j a b s → Before i j a (b + 1) s
    grow_lem i j a b s h = omega arith

    fresh_lem :
        (i j a b : ℕ) (s : Spot) → Before i j a b s → s ≢ record { i = i; j = j; a = a; b = b }
    fresh_lem i j a b s h e =
        let ei : s.i ≡ i = ap (λ (t : Spot). t.i) e in
        let ej : s.j ≡ j = ap (λ (t : Spot). t.j) e in
        let ea : s.a ≡ a = ap (λ (t : Spot). t.a) e in
        let eb : s.b ≡ b = ap (λ (t : Spot). t.b) e in omega arith

    starts_lem :
        (i j a b : ℕ) (p : Picture)
        → In (record { i = i; j = j; a = a; b = b })
        → Drawn pixels (Before i j a b) p
        → (s : Spot) → Before i j a (b + 1) s
        → type_of s ≡ start
        → ((note_cell (cell_at maze i j) i j p).pos_x ≡ s.j)
          × ((note_cell (cell_at maze i j) i j p).pos_y ≡ s.i)
    starts_lem i j a b p h d s l e = elim (note_start (cell_at maze i j) i j p) [
      | inl (t, x, y) ↦
          let same = one_start i j s.i s.j h.0 h.1 l.0.0 l.0.1 t e in (x ∙ same.1, y ∙ same.0)
      | inr (ne, x, y) ↦ elim (split_lem i j a b s l) [
        | inl old ↦ let k = d.starts s old e in (x ∙ k.0, y ∙ k.1)
        | inr new ↦ absurd (ne (sym (ap (λ (t : Spot). cell_at maze t.i t.j) new) ∙ e))
      ]
    ]

    ends_lem :
        (i j a b : ℕ) (p : Picture)
        → In (record { i = i; j = j; a = a; b = b })
        → Drawn pixels (Before i j a b) p
        → (s : Spot) → Before i j a (b + 1) s
        → type_of s ≡ end
        → ((note_cell (cell_at maze i j) i j p).end_x ≡ s.j)
          × ((note_cell (cell_at maze i j) i j p).end_y ≡ s.i)
    ends_lem i j a b p h d s l e = elim (note_end (cell_at maze i j) i j p) [
      | inl (t, x, y) ↦
          let same = one_end i j s.i s.j h.0 h.1 l.0.0 l.0.1 t e in (x ∙ same.1, y ∙ same.0)
      | inr (ne, x, y) ↦ elim (split_lem i j a b s l) [
        | inl old ↦ let k = d.ends s old e in (x ∙ k.0, y ∙ k.1)
        | inr new ↦ absurd (ne (sym (ap (λ (t : Spot). cell_at maze t.i t.j) new) ∙ e))
      ]
    ]

    abbrev pub DrawnTo : ℕ → ℕ → ℕ → ℕ → Picture → Type 0
    DrawnTo i j a b = Drawn pixels (Before i j a b)

    pub pixel_lem :
        (i j a b : ℕ) (p : Picture)
        → In (record { i = i; j = j; a = a; b = b })
        → DrawnTo i j a b p
        → Returns (DrawnTo i j a (b + 1)) (draw_pixel width maze g i j a b p)
    pixel_lem i j a b p h d =
        let s : Spot = record { i = i; j = j; a = a; b = b } in
        let size : at s < length p.pixels =
          rw (d.touches.size ∙ room) (spot_lt width height maze g fits s h) in
        let (old, e) = get_elem?-of_lt p.pixels (at s) size in
        record {
          out = after i j a b old p;
          returns = draw_pixel_lem i j a b p old h e;
          holds = record {
            touches =
                Touches-join at paint {D = Before i j a b} {E = λ t. t ≡ s} d.touches
                  (Touches-set at paint s p.pixels (paint s old) size (λ l k. k) refl
                    (λ o k. ap (paint s) (some_inj (sym k ∙ e))))
                  (split_lem i j a b) (grow_lem i j a b)
                  (λ k e. rw e (h, inr (refl, inr (refl, inr (refl, omega arith)))))
                  (λ k l old new same.
                    fresh_lem i j a b k old
                      (spot_inj width height maze g fits k l old.0 (rw new h) same ∙ new));
            starts = starts_lem i j a b p h d;
            ends = ends_lem i j a b p h d;
          };
        }
