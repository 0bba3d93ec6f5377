-- ===== src/BootManager/Graphics/Combine.antt =====
-- `CombineWithTransparency`, pixel by pixel.
use uefi_game.Prelude.{
  ℕ, ◌+◌, ◌*◌, ◌^◌, ◌≤◌, ◌<◌, ◌≡◌, ap, ◌∙◌, arith, inl, inr, ◌==◌, if◌then◌else◌, Bool-cases, wrap,
  wrap_lem, List, some, ok, length, get_elem?, set, get_or, get_or-of_get_elem?,
  get_elem?-eq-get_or, get_elem?-set_self, store_lem, length-set, length-replicate,
  get_elem?-replicate, replicate, set-set, Returns, Returns-map, grid_lem, row_major_lt,
  row_major_inj,
}
use mathlib.Core.Path.{ap₂}
use uefi_game.Pixels.{Pixel, zero_pixel}
use uefi_game.BootManager.Graphics.{combine_pixel, combine_with_transparency}

-- The foreground where it is opaque, and the background elsewhere.
abbrev pub over : Pixel → Pixel → Pixel
over p b = if p.reserved == 0xff then p else b

module _ (zero_pool : ℕ → List Pixel) (fg bg : List Pixel) (w h : ℕ) (fits : 4 * w * h < 2 ^ 64)
    (fg_size : w * h ≤ length fg) (bg_size : w * h ≤ length bg) where
  cell : ℕ × ℕ → ℕ
  cell p = p.0 * w + p.1

  combined : ℕ × ℕ → Pixel → Pixel
  combined p _ = over (get_or fg (cell p) zero_pixel) (get_or bg (cell p) zero_pixel)

  combine_pixel_lem :
      (y x : ℕ) (s : List Pixel) (a : Pixel)
      → y < h
      → x < w
      → length s ≡ h * w
      → get_elem? s (cell (y, x)) ≡ some a
      → combine_pixel zero_pool fg bg w y x s ≡ ok (set s (cell (y, x)) (combined (y, x) a))
  unfolding combine_pixel cell combined
  combine_pixel_lem y x s a hy hx e _ =
      let i = y * w + x in
      let low : i < h * w = row_major_lt h w (y, x) (hy, hx) in
      let size : h * w ≡ w * h = grind arith in
      let narrow : wrap i ≡ i = wrap_lem i (grind arith) in
      let p = get_or fg i zero_pixel in
      let at = get_elem?-eq-get_or fg i zero_pixel (omega arith) in
      let bt = get_elem?-eq-get_or bg i zero_pixel (omega arith) in
      let room : i < length s = omega arith in
      let back = get_elem?-set_self s i p room in
      let again : i < length (set s i p) = rw (length-set s i p) room in
      elim (Bool-cases (p.reserved == 0xff)) [
        | inl opaque ↦ rw (narrow, at, store_lem s i p room, back, opaque)
        | inr clear ↦ rw (
          narrow,
          at,
          store_lem s i p room,
          back,
          clear,
          bt,
          store_lem _ i _ again,
          set-set s i p (get_or bg i zero_pixel),
        )
      ]

  -- With both images and the result in memory, no access is out of bounds. The result has one pixel
  -- for each place: that of the foreground if it is opaque, else that of the background.
  pub combine_with_transparency_lem :
      zero_pool (4 * w * h) ≡ replicate (w * h) zero_pixel
      → Returns
          (λ (out : List Pixel).
            (length out ≡ w * h)
            × ((y x : ℕ) (p b : Pixel)
                → y < h
                → x < w
                → get_elem? fg (y * w + x) ≡ some p
                → get_elem? bg (y * w + x) ≡ some b
                → get_elem? out (y * w + x) ≡ some (over p b)))
          (combine_with_transparency zero_pool fg bg w h)
  unfolding combine_with_transparency cell combined
  combine_with_transparency_lem room =
      let fresh = replicate (w * h) zero_pixel in
      let turn : h * w ≡ w * h = grind arith in
      let size : length fresh ≡ h * w = length-replicate (w * h) zero_pixel ∙ grind arith in
      rw (wrap_lem (4 * w * h) fits, room)
        (Returns-map
          (grid_lem h w (h * w) cell combined (combine_pixel zero_pool fg bg w)
            (λ p q hp hq e. row_major_inj w p q hp.1 hq.1 e) (λ p hp. row_major_lt h w p hp)
            (λ y x s a hy hx e t. combine_pixel_lem y x s a hy hx e t) fresh size)
          (λ out t. (
            t.size ∙ length-replicate (w * h) zero_pixel,
            λ y x p b hy hx e g.
                t.inside (y, x) zero_pixel (hy, hx)
                  (get_elem?-replicate (w * h) (y * w + x) zero_pixel
                    (rw turn at (row_major_lt h w (y, x) (hy, hx))))
                ∙ ap some (
                    ap₂ over (get_or-of_get_elem? fg _ zero_pixel e)
                      (get_or-of_get_elem? bg _ zero_pixel g)),
          )))
