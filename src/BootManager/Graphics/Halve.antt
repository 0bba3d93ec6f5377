-- ===== src/BootManager/Graphics/Halve.antt =====
-- `CutInHalf`: every second pixel of every second row.
use uefi_game.Prelude.{
  ℕ, ◌+◌, ◌*◌, ◌/◌, ◌%◌, ◌^◌, ◌≤◌, ◌<◌, ◌≡◌, refl, ap, ◌∙◌, inl, inr, arith, ◌==◌, ◌&&◌, true,
  false, Bool-cases, wrap, wrap_lem, List, some, ok, length, get_elem?, set, get_or,
  get_or-of_get_elem?, get_elem?-eq-get_or, store_lem, length-replicate, get_elem?-replicate,
  replicate, Returns, Returns-map, for_loop, for_loop_from_zero, row_major_lt, row_major_inj,
  Touches, Touches-nothing, Touches-same, Touches-join, Touches-set,
}
use mathlib.Core.Path.{ap₂}
use uefi_game.Pixels.{Pixel, zero_pixel}
use uefi_game.BootManager.Graphics.{cut_pixel, cut_in_half}

-- An image of `2 * rows` rows of `2 * cols` pixels.
module _ (zero_pool : ℕ → List Pixel) (image : List Pixel) (rows cols : ℕ)
    (image_size : 2 * rows * (2 * cols) ≤ length image) (small : length image < 2 ^ 60) where
  cell : ℕ × ℕ → ℕ
  cell p = p.0 * cols + p.1

  source : ℕ × ℕ → ℕ
  source p = 2 * p.0 * (2 * cols) + 2 * p.1

  halved : ℕ × ℕ → Pixel → Pixel
  halved p _ = get_or image (source p) zero_pixel

  -- What the rows before `i` have filled, and what row `i` fills up to column `j`.
  abbrev Before : ℕ → ℕ × ℕ → Type 0
  Before i p = (p.0 < rows) × (p.1 < cols) × (2 * p.0 < i)

  abbrev InRow : ℕ → ℕ → ℕ × ℕ → Type 0
  InRow i j p = (p.0 < rows) × (p.1 < cols) × (2 * p.0 ≡ i) × (2 * p.1 < j)

  abbrev Filled : (ℕ × ℕ → Type 0) → List Pixel → List Pixel → Type 0
  Filled = Touches cell halved

  copy_lem :
      (y x : ℕ) (s : List Pixel)
      → y < rows
      → x < cols
      → length s ≡ rows * cols
      → cut_pixel zero_pool image (2 * cols) cols (2 * y) (2 * x) s
        ≡ ok (set s (cell (y, x)) (halved (y, x) zero_pixel))
  unfolding cut_pixel cell halved source
  copy_lem y x s hy hx e =
      let from : 2 * y * (2 * cols) + 2 * x < length image = grind arith in
      let to : y * cols + x < rows * cols = row_major_lt rows cols (y, x) (hy, hx) in
      let even : (2 * y % 2 == 0 && 2 * x % 2 == 0) ≡ true = ground arith in
      let half_y : 2 * y / 2 ≡ y = omega arith in
      let half_x : 2 * x / 2 ≡ x = omega arith in
      rw (
        even,
        half_y,
        half_x,
        wrap_lem (2 * y * (2 * cols) + 2 * x) (omega arith),
        wrap_lem (y * cols + x) (omega arith),
        get_elem?-eq-get_or image _ zero_pixel from,
        store_lem s (y * cols + x) _ (rw e to),
      )

  skip_lem :
      (i j : ℕ) (s : List Pixel)
      → (i % 2 == 0 && j % 2 == 0) ≡ false
      → cut_pixel zero_pool image (2 * cols) cols i j s ≡ ok s
  unfolding cut_pixel
  skip_lem i j s odd = rw odd

  copy_round :
      (s0 : List Pixel)
      → length s0 ≡ rows * cols
      → (i j y x : ℕ) (s : List Pixel) → i ≡ 2 * y
      → j ≡ 2 * x
      → y < rows
      → x < cols
      → Filled (InRow i j) s0 s
      → Returns (Filled (InRow i (j + 1)) s0) (cut_pixel zero_pool image (2 * cols) cols i j s)
  unfolding cell halved
  copy_round s0 size i j y x s ei ej hy hx t =
      let room : cell (y, x) < length s =
        rw (t.size ∙ size) (row_major_lt rows cols (y, x) (hy, hx)) in
      record {
        out = set s (cell (y, x)) (halved (y, x) zero_pixel);
        returns =
            ap₂ (λ a b. cut_pixel zero_pool image (2 * cols) cols a b s) ei ej
            ∙ copy_lem y x s hy hx (t.size ∙ size);
        holds =
            Touches-join cell halved {D = InRow i j} {E = λ p. p ≡ (y, x)} t
              (Touches-set cell halved (y, x) s (halved (y, x) zero_pixel) room (λ l h. h) refl
                (λ a h. refl))
              (λ k h. ground arith) (λ k h. omega arith) (λ k h. ground arith)
              (λ k l h h' same. ground (arith, row_major_inj cols k l));
      }

  cut_round :
      (s0 : List Pixel)
      → length s0 ≡ rows * cols
      → (i j : ℕ) (s : List Pixel) → i < 2 * rows
      → j < 2 * cols
      → Filled (InRow i j) s0 s
      → Returns (Filled (InRow i (j + 1)) s0) (cut_pixel zero_pool image (2 * cols) cols i j s)
  cut_round s0 size i j s hi hj t = elim (Bool-cases (i % 2 == 0 && j % 2 == 0)) [
    | inl even ↦
        let e : (i ≡ 2 * (i / 2)) × (j ≡ 2 * (j / 2)) = ground arith in
        copy_round s0 size i j (i / 2) (j / 2) s e.0 e.1 (omega arith) (omega arith) t
    | inr odd ↦ record {
      out = s;
      returns = skip_lem i j s odd;
      holds = Touches-same cell halved t (λ p h. ground arith) (λ p h. omega arith);
    }
  ]

  cut_row :
      (i : ℕ) (s : List Pixel)
      → i < 2 * rows
      → length s ≡ rows * cols
      → Returns
          (Filled (InRow i (2 * cols)) s)
          (for_loop (2 * cols) 0 (cut_pixel zero_pool image (2 * cols) cols i) s)
  cut_row i s hi e =
      for_loop_from_zero (λ j. Filled (InRow i j) s) _ (2 * cols)
        (λ j t hj h. cut_round s e i j t hi hj h) s
        (Touches-nothing cell halved (λ k h. absurd (omega arith)) s)

  -- An image with an even number of rows and of columns, all of it in memory, is halved without an
  -- access out of bounds: the result has half the rows and half the columns, and its pixel in row y
  -- and column x is the one in row 2y and column 2x of the image.
  pub cut_in_half_lem :
      zero_pool (rows * cols * 4) ≡ replicate (rows * cols) zero_pixel
      → Returns
          (λ (out : List Pixel).
            (length out ≡ rows * cols)
            × ((y x : ℕ) (p : Pixel)
                → y < rows
                → x < cols
                → get_elem? image (2 * y * (2 * cols) + 2 * x) ≡ some p
                → get_elem? out (y * cols + x) ≡ some p))
          (cut_in_half zero_pool image (2 * cols) (2 * rows))
  unfolding cut_in_half cell halved source
  cut_in_half_lem room =
      let fresh = replicate (rows * cols) zero_pixel in
      let size = length-replicate (rows * cols) zero_pixel in
      let half_w : 2 * cols / 2 ≡ cols = omega arith in
      let half_h : 2 * rows / 2 ≡ rows = omega arith in
      let bytes : wrap (cols * rows * 4) ≡ rows * cols * 4 =
        wrap_lem (cols * rows * 4) (omega arith) ∙ omega arith in
      rw (half_w, half_h, bytes, room)
        (Returns-map
          (for_loop_from_zero (λ i. Filled (Before i) fresh) _ (2 * rows)
            (λ i t hi h. Returns-map (cut_row i t hi (h.size ∙ size)) (λ u r.
              Touches-join cell halved {D = Before i} {E = InRow i (2 * cols)} h r
                (λ k g. omega arith) (λ k g. omega arith) (λ k g. omega arith)
                (λ k l g g' same. ground (arith, row_major_inj cols k l))))
            fresh (Touches-nothing cell halved (λ k h. absurd (omega arith)) fresh))
          (λ out t. (
            t.size ∙ size,
            λ y x p hy hx e.
                t.inside (y, x) zero_pixel (hy, hx, omega arith)
                  (get_elem?-replicate (rows * cols) (y * cols + x) zero_pixel
                    (row_major_lt rows cols (y, x) (hy, hx)))
                ∙ ap some (get_or-of_get_elem? image _ zero_pixel e),
          )))
