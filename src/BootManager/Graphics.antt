-- ===== src/BootManager/Graphics.antt =====
-- Application/BootManager2D/src/Graphics.c. `zero_pool` stands for `AllocateZeroPool`, from a number
-- of bytes to the pixels there; a null pointer is an empty buffer.
pub mod Combine
pub mod Halve
pub mod Odd
use uefi_game.Prelude.{
  ℕ, ◌+◌, ◌*◌, ◌/◌, ◌%◌, ◌==◌, ◌&&◌, if◌then◌else◌, wrap, List, Result, ok, ◌>>=◌, load, store,
  for_loop,
}
use uefi_game.Pixels.{Pixel}

module _ (zero_pool : ℕ → List Pixel) where
  pub cut_pixel : List Pixel → ℕ → ℕ → ℕ → ℕ → List Pixel → Result (List Pixel)
  cut_pixel image width new_width i j result =
      let copy =
        load image (wrap (i * width + j)) >>= store result (wrap (i / 2 * new_width + j / 2)) in
      if i % 2 == 0 && j % 2 == 0 then copy else ok result

  unfoldable pub cut_in_half : List Pixel → ℕ → ℕ → Result (List Pixel)
  unfolding for_loop cut_pixel wrap
  cut_in_half image width height = do
    let new_width = width / 2
    let new_height = height / 2
    let result = zero_pool (wrap (new_width * new_height * 4))
    for_loop height 0 (λ i. for_loop width 0 (cut_pixel image width new_width i)) result

  pub combine_pixel : List Pixel → List Pixel → ℕ → ℕ → ℕ → List Pixel → Result (List Pixel)
  combine_pixel foreground background width y x result = do
    let at = wrap (y * width + x)
    p ← load foreground at
    written ← store result at p
    q ← load written at
    let behind = do b ← load background at; store written at b
    if q.reserved == 0xff then ok written else behind

  unfoldable pub combine_with_transparency : List Pixel → List Pixel → ℕ → ℕ → Result (List Pixel)
  unfolding for_loop combine_pixel wrap
  combine_with_transparency foreground background width height =
      for_loop height 0 (λ y. for_loop width 0 (combine_pixel foreground background width y))
        (zero_pool (wrap (4 * width * height)))
