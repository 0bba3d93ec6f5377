-- ===== src/Maze/Actor/Painting.antt =====
-- `ParseActor`: the sprite in the upper left corner of its buffer.
use uefi_game.Prelude.{
  ℕ, ◌+◌, ◌*◌, ◌/◌, ◌^◌, ◌≤◌, ◌<◌, ◌≡◌, refl, sym, ap, ◌∙◌, ◌≢◌, ◌⊎◌, false, some, List, arith,
  wrap_lem, length, get_elem?, set, lt-of_get_elem?, get_or, get_elem?-eq-get_or,
  get_or-of_get_elem?, set-get_elem?, Result, ok, ◌>>=◌, Returns, Returns-ok, load, store,
  store_lem, bind_assoc, for_loop, Touches, InGrid, grid_lem, row_major_lt, row_major_inj,
  for_loop_carry,
}
use native.Mathlib.Nat.{div-mul-le_self}
use uefi_game.Pixels.{Pixel, set_rgb}
use uefi_game.Lines.{line_width, line_width_lem}
use uefi_game.Maze.Actor.{
  Painted, Case, rgb, break, return, letter_case, paint_case, paint_letter, parse_actor,
}

-- What a letter makes of a pixel.
abbrev pub coloured : Case → Pixel → Pixel
coloured (rgb r g b) a = set_rgb r g b a
coloured break a = a
coloured return a = a

module _ (file : List ℕ) (w side : ℕ) (broken : get_elem? file w ≡ some b'\n')
    (first : (k : ℕ) → k < w → get_elem? file k ≢ some b'\n') (small : length file < 2 ^ 60)
    (small_side : side < 2 ^ 16) where
  abbrev height : ℕ
  height = length file / (w + 1)

  -- The letter in column `p.0` of row `p.1`, and the pixel for it.
  letter : ℕ × ℕ → ℕ
  letter p = p.1 * (w + 1) + p.0

  cell : ℕ × ℕ → ℕ
  cell p = p.1 * side + p.0

  case_at : ℕ × ℕ → Case
  case_at p = letter_case (get_or file (letter p) 0)

  painted : ℕ × ℕ → Pixel → Pixel
  painted p a = coloured (case_at p) a

  -- A round on the pixels alone, where the letter is one of the `switch`.
  put : Case → ℕ → List Pixel → Result (List Pixel)
  put (rgb r g b) at s = do old ← load s at; store s at (set_rgb r g b old)
  put break at s = ok s
  put return at s = ok s

  put_lem :
      (c : Case) (k : ℕ) (s : List Pixel) (a : Pixel)
      → get_elem? s k ≡ some a
      → put c k s ≡ ok (set s k (coloured c a))
  unfolding put
  put_lem (rgb r g b) k s a at = rw at (store_lem s k (set_rgb r g b a) (lt-of_get_elem? s k at))
  put_lem break k s a at = ap ok (sym (set-get_elem? s k at))
  put_lem return k s a at = ap ok (sym (set-get_elem? s k at))

  abbrev going : List Pixel → Painted
  going s = record { pixels = s; returned = false }

  paint_case_lem :
      (c : Case) (k : ℕ) (s : List Pixel)
      → c ≢ return
      → paint_case c k (going s) ≡ (put c k s >>= λ s'. ok (going s'))
  unfolding paint_case put
  paint_case_lem (rgb r g b) k s known =
      sym (bind_assoc (load s k) (λ old. store s k (set_rgb r g b old)) (λ s'. ok (going s')))
  paint_case_lem break k s known = refl
  paint_case_lem return k s known = absurd (known refl)

  letter_lt : (p : ℕ × ℕ) → InGrid w height p → letter p < length file
  unfolding letter
  letter_lt p h =
      let fit = div-mul-le_self (length file) (w + 1) in
      let l = row_major_lt height (w + 1) (p.1, p.0) (h.1, omega arith) in omega arith

  module _ (narrow : w ≤ side) (low : height ≤ side) where
    cell_lt : (p : ℕ × ℕ) → InGrid w height p → cell p < side * side
    unfolding cell
    cell_lt p h = row_major_lt side side (p.1, p.0) (omega arith, omega arith)

    cell_inj : (p q : ℕ × ℕ) → InGrid w height p → InGrid w height q → cell p ≡ cell q → p ≡ q
    unfolding cell
    cell_inj p q h g e =
        let s = row_major_inj side (p.1, p.0) (q.1, q.0) (omega arith) (omega arith) e in
        ap (λ (r : ℕ × ℕ). (r.1, r.0)) s

    area : side * side < 2 ^ 32
    area = grind arith

    module _ (known : (p : ℕ × ℕ) → InGrid w height p → case_at p ≢ return) where
      core : ℕ → ℕ → List Pixel → Result (List Pixel)
      core i j s = put (case_at (i, j)) (cell (i, j)) s

      paint_letter_lem :
          (i j : ℕ) (s : List Pixel)
          → i < w
          → j < height
          → paint_letter file w side i j (going s) ≡ (core i j s >>= λ s'. ok (going s'))
      unfolding paint_letter core cell letter case_at
      paint_letter_lem i j s hi hj =
          let from : j * (w + 1) + i < length file = unfold letter in letter_lt (i, j) (hi, hj) in
          let to : j * side + i < side * side = unfold cell in cell_lt (i, j) (hi, hj) in
          let bound = area in
          let k = known (i, j) (hi, hj) in
          rw
            (
              wrap_lem (j * (w + 1) + i) (omega arith),
              get_elem?-eq-get_or file (j * (w + 1) + i) 0 from,
              wrap_lem (j * side + i) (omega arith),
            )
            (paint_case_lem (letter_case (get_or file (j * (w + 1) + i) 0)) (j * side + i) s k)

      column_lem :
          (i : ℕ) (s : List Pixel)
          → i < w
          → for_loop height 0 (paint_letter file w side i) (going s)
            ≡ (for_loop height 0 (core i) s >>= λ s'. ok (going s'))
      column_lem i s hi =
          for_loop_carry (λ j. going) (paint_letter file w side i) (core i) height
            (λ j t hj. paint_letter_lem i j t hi hj) height 0 s (omega arith)

      loops_lem :
          (s : List Pixel)
          → for_loop w 0 (λ i. for_loop height 0 (paint_letter file w side i)) (going s)
            ≡ (for_loop w 0 (λ i. for_loop height 0 (core i)) s >>= λ s'. ok (going s'))
      loops_lem s =
          for_loop_carry (λ j. going) (λ i. for_loop height 0 (paint_letter file w side i))
            (λ i. for_loop height 0 (core i)) w (λ i t hi. column_lem i t hi) w 0 s (omega arith)

      loops-Returns :
          (s : List Pixel)
          → length s ≡ side * side
          → Returns
              (Touches cell painted (InGrid w height) s)
              (for_loop w 0 (λ i. for_loop height 0 (core i)) s)
      loops-Returns s size =
          grid_lem w height (side * side) cell painted core cell_inj cell_lt
            (λ i j t a hi hj e at.
              unfold core painted in put_lem (case_at (i, j)) (cell (i, j)) t a at)
            s size

  -- A file of less than 2 ^ 60 bytes with a first line of `w` letters, no longer than the side of a
  -- cell (below 2 ^ 16), with at most that many lines, and with no letter but those of the `switch`: the letters are painted in the upper
  -- left corner of the cell, line under line, and the other pixels stay as they are, without an
  -- access out of bounds.
  pub parse_actor_lem :
      (s : List Pixel)
      → w ≤ side
      → height ≤ side
      → length s ≡ side * side
      → ((y x c : ℕ)
          → y < height
          → x < w
          → get_elem? file (y * (w + 1) + x) ≡ some c
          → letter_case c ≢ return)
      → Returns
          (λ (r : List Pixel).
            (length r ≡ side * side)
            × ((y x c : ℕ) (a : Pixel)
                → y < height
                → x < w
                → get_elem? file (y * (w + 1) + x) ≡ some c
                → get_elem? s (y * side + x) ≡ some a
                → get_elem? r (y * side + x) ≡ some (coloured (letter_case c) a))
            × ((y x : ℕ)
                → x < side
                → (height ≤ y) ⊎ (w ≤ x)
                → get_elem? r (y * side + x) ≡ get_elem? s (y * side + x)))
          (parse_actor file (length file) s side)
  unfolding parse_actor
  parse_actor_lem s narrow low size known =
      let all : (p : ℕ × ℕ) → InGrid w height p → case_at p ≢ return = λ p h.
        unfold case_at letter in
        known p.1 p.0 (get_or file (letter p) 0) h.1 h.0
          (get_elem?-eq-get_or file (letter p) 0 (letter_lt p h)) in
      let g = loops-Returns narrow low all s size in
      let line : line_width file 0 ≡ ok w =
        line_width_lem file w 0 broken first ∙ ap ok (omega arith) in
      rw (line, loops_lem narrow low all s, g.returns)
        (Returns-ok (
          g.holds.size ∙ size,
          λ y x c a hy hx e at.
              unfold cell painted case_at letter in
              g.holds.inside (x, y) a (hx, hy) at
              ∙ ap (λ k. some (coloured (letter_case k) a))
                  (get_or-of_get_elem? file (y * (w + 1) + x) 0 e),
          λ y x hx out. g.holds.outside (y * side + x) (λ p d same.
              unfold cell in
              let e = row_major_inj side (p.1, p.0) (y, x) (omega arith) hx same in
              let e0 : p.1 ≡ y = ap (λ (r : ℕ × ℕ). r.0) e in
              let e1 : p.0 ≡ x = ap (λ (r : ℕ × ℕ). r.1) e in omega arith),
        ))
