-- ===== src/Tests/Pictures.antt =====
-- Application/BootManager2D/src/Graphics.c on small images.
use uefi_game.Prelude.{
  ℕ, ◌+◌, ◌*◌, ◌/◌, ◌<◌, ◌≡◌, refl, arith, List, [], ◌∷◌, some, ok, Returns, length, replicate,
  get_elem?,
}
use uefi_game.Pixels.{Pixel, zero_pixel}
use uefi_game.BootManager.Graphics.{cut_in_half, combine_with_transparency}
use uefi_game.BootManager.Graphics.Combine.{over, combine_with_transparency_lem}
use uefi_game.BootManager.Graphics.Halve.{cut_in_half_lem}

abbrev pixel : ℕ → ℕ → Pixel
pixel v alpha = record { blue = v; green = v; red = v; reserved = alpha }

abbrev zero_pool : ℕ → List Pixel
zero_pool bytes = replicate (bytes / 4) zero_pixel

abbrev square : List Pixel
square = pixel 1 255 ∷ pixel 2 0 ∷ pixel 3 0 ∷ pixel 4 255 ∷ []

abbrev ground_tile : List Pixel
ground_tile = pixel 5 255 ∷ pixel 6 255 ∷ pixel 7 255 ∷ pixel 8 255 ∷ []

halve_square : cut_in_half zero_pool square 2 2 ≡ ok (pixel 1 255 ∷ [])
unfolding cut_in_half
halve_square = refl

combine_square :
    combine_with_transparency zero_pool square ground_tile 2 2
    ≡ ok (pixel 1 255 ∷ pixel 6 255 ∷ pixel 7 255 ∷ pixel 4 255 ∷ [])
unfolding combine_with_transparency
combine_square = refl

combine_with_transparency_lem_example :
    Returns
      (λ (out : List Pixel).
        (length out ≡ 4)
        × ((y x : ℕ) (p b : Pixel)
            → y < 2
            → x < 2
            → get_elem? square (y * 2 + x) ≡ some p
            → get_elem? ground_tile (y * 2 + x) ≡ some b
            → get_elem? out (y * 2 + x) ≡ some (over p b)))
      (combine_with_transparency zero_pool square ground_tile 2 2)
combine_with_transparency_lem_example =
    combine_with_transparency_lem zero_pool square ground_tile 2 2 (omega arith) (omega arith)
      (omega arith) refl

cut_in_half_lem_example :
    Returns
      (λ (out : List Pixel).
        (length out ≡ 1)
        × ((y x : ℕ) (p : Pixel)
            → y < 1
            → x < 1
            → get_elem? square (2 * y * (2 * 1) + 2 * x) ≡ some p
            → get_elem? out (y * 1 + x) ≡ some p))
      (cut_in_half zero_pool square 2 2)
cut_in_half_lem_example = cut_in_half_lem zero_pool square 1 1 (omega arith) (omega arith) refl
