-- ===== src/BootManager/Sprite/Painting.antt =====
-- `ParseSprite`: the picture that a file describes.
use uefi_game.Prelude.{
  ℕ, ◌+◌, ◌*◌, ◌/◌, ◌^◌, ◌≤◌, ◌<◌, ◌≡◌, refl, sym, ap, ◌∙◌, ◌≢◌, Option, none, some, List, arith,
  wrap, wrap_lem, length, replicate, get_elem?, set, length-replicate, get_elem?-replicate,
  lt-of_get_elem?, get_or, get_elem?-eq-get_or, get_or-of_get_elem?, set-get_elem?, ok, fault,
  Returns, Returns-ok, store_lem, InGrid, grid_lem, row_major_lt, row_major_inj,
}
use native.Mathlib.Nat.{div-mul-le_self}
use uefi_game.Pixels.{Pixel, zero_pixel}
use uefi_game.Lines.{line_width, line_width_lem, no_line_lem}
use uefi_game.BootManager.Sprite.{Sprite, colour, put_pixel, paint, parse_sprite}

-- What a letter makes of a pixel.
abbrev pub coloured : Option Pixel → Pixel → Pixel
coloured none a = a
coloured (some p) a = p

module _ (zero_pool : ℕ → List Pixel) (file : List ℕ) (w : ℕ)
    (broken : get_elem? file w ≡ some b'\n')
    (first : (k : ℕ) → k < w → get_elem? file k ≢ some b'\n') (small : length file < 2 ^ 60) where
  abbrev height : ℕ
  height = length file / (w + 1)

  -- The pixel in column `p.0` of row `p.1`, and the letter for it.
  cell : ℕ × ℕ → ℕ
  cell p = p.1 * w + p.0

  letter : ℕ × ℕ → ℕ
  letter p = p.1 * (w + 1) + p.0

  put_pixel_lem :
      (o : Option Pixel) (k : ℕ) (s : List Pixel) (a : Pixel)
      → get_elem? s k ≡ some a
      → put_pixel o k s ≡ ok (set s k (coloured o a))
  unfolding put_pixel
  put_pixel_lem none k s a at = ap ok (sym (set-get_elem? s k at))
  put_pixel_lem (some p) k s a at = store_lem s k p (lt-of_get_elem? s k at)

  painted : ℕ × ℕ → Pixel → Pixel
  painted p a = coloured (colour (get_or file (letter p) 0)) a

  fit : height * (w + 1) ≤ length file
  fit = div-mul-le_self (length file) (w + 1)

  letter_lt : (p : ℕ × ℕ) → InGrid w height p → letter p < length file
  unfolding letter
  letter_lt p h =
      let l = row_major_lt height (w + 1) (p.1, p.0) (h.1, omega arith) in omega (arith, fit)

  cell_lt : (p : ℕ × ℕ) → InGrid w height p → cell p < height * w
  unfolding cell
  cell_lt p h = row_major_lt height w (p.1, p.0) (h.1, h.0)

  area : height * w ≤ length file
  area = let f = fit in grind arith

  cell_inj : (p q : ℕ × ℕ) → InGrid w height p → InGrid w height q → cell p ≡ cell q → p ≡ q
  unfolding cell
  cell_inj p q h g e =
      let s = row_major_inj w (p.1, p.0) (q.1, q.0) h.0 g.0 e in ap (λ (r : ℕ × ℕ). (r.1, r.0)) s

  paint_lem :
      (i j : ℕ) (s : List Pixel) (a : Pixel)
      → i < w
      → j < height
      → length s ≡ height * w
      → get_elem? s (cell (i, j)) ≡ some a
      → paint file w i j s ≡ ok (set s (cell (i, j)) (painted (i, j) a))
  unfolding paint cell painted letter
  paint_lem i j s a hi hj e at =
      let from : j * (w + 1) + i < length file = unfold letter in letter_lt (i, j) (hi, hj) in
      let to : j * w + i < height * w = unfold cell in cell_lt (i, j) (hi, hj) in
      let bound = area in
      rw (
        wrap_lem (j * (w + 1) + i) (omega arith),
        get_elem?-eq-get_or file (j * (w + 1) + i) 0 from,
        wrap_lem (j * w + i) (omega arith),
        put_pixel_lem (colour (get_or file (j * (w + 1) + i) 0)) (j * w + i) s a at,
      )

  -- A file whose first line break comes after `w` letters gives a sprite of that width, with as
  -- many rows as the file has room for, without an access out of bounds. The pixel in row `y` and
  -- column `x` is the one that letter `x` of line `y` stands for, or cleared if it stands for none.
  pub parse_sprite_lem :
      zero_pool (4 * w * height) ≡ replicate (height * w) zero_pixel
      → Returns
          (λ (r : Sprite).
            (r.width ≡ w)
            × (r.height ≡ height)
            × (length r.pixels ≡ height * w)
            × ((y x c : ℕ)
                → y < height
                → x < w
                → get_elem? file (y * (w + 1) + x) ≡ some c
                → get_elem? r.pixels (y * w + x) ≡ some (coloured (colour c) zero_pixel)))
          (parse_sprite zero_pool file)
  unfolding parse_sprite cell painted letter
  parse_sprite_lem room =
      let bound = area in
      let bytes : wrap (4 * w * height) ≡ 4 * w * height = wrap_lem _ (omega arith) in
      let size = length-replicate (height * w) zero_pixel in
      let g =
        grid_lem w height (height * w) cell painted (paint file w) cell_inj cell_lt paint_lem
          (replicate (height * w) zero_pixel) size in
      let line : line_width file 0 ≡ ok w =
        line_width_lem file w 0 broken first ∙ ap ok (omega arith) in
      rw (line, bytes, room, g.returns)
        (Returns-ok (
          refl,
          refl,
          g.holds.size ∙ size,
          λ y x c hy hx e.
              g.holds.inside (x, y) zero_pixel (hx, hy)
                (get_elem?-replicate (height * w) (y * w + x) zero_pixel
                  (row_major_lt height w (y, x) (hy, hx)))
              ∙ ap (λ k. some (coloured (colour k) zero_pixel))
                  (get_or-of_get_elem? file (y * (w + 1) + x) 0 e),
        ))

-- A file without a line break is read behind its end.
pub parse_sprite_fault :
    (zero_pool : ℕ → List Pixel) (file : List ℕ)
    → ((k : ℕ) → get_elem? file k ≢ some b'\n')
    → parse_sprite zero_pool file ≡ fault
unfolding parse_sprite
parse_sprite_fault zero_pool file none_there = rw (no_line_lem file 0 none_there)
