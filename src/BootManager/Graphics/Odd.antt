-- ===== src/BootManager/Graphics/Odd.antt =====
-- `CutInHalf` on an image with an odd number of rows or columns.
use uefi_game.Prelude.{
  ℕ, ◌+◌, ◌-◌, ◌*◌, ◌/◌, ◌%◌, ◌^◌, ◌≤◌, ◌<◌, ◌≡◌, refl, ◌⊎◌, inl, inr, arith, ◌==◌, ◌&&◌, true,
  Bool-cases, wrap, wrap_lem, List, Result, fault, length, replicate, length-replicate, store_size,
  store_fault, load-cases, Returns, Returns-ok, for_loop, for_loop_fault, for_loop_keeps,
}
use native.Mathlib.Nat.{le_trans}
use uefi_game.Pixels.{Pixel, zero_pixel}
use uefi_game.BootManager.Graphics.{cut_pixel, cut_in_half}

module _ (zero_pool : ℕ → List Pixel) (image : List Pixel) (width height size : ℕ) where
  abbrev HasSize : List Pixel → Type 0
  HasSize s = length s ≡ size

  abbrev Keeps : Result (List Pixel) → Type 0
  Keeps r = (r ≡ fault) ⊎ Returns HasSize r

  pixel-Keeps :
      (i j : ℕ) (s : List Pixel)
      → HasSize s
      → Keeps (cut_pixel zero_pool image width (width / 2) i j s)
  unfolding cut_pixel
  pixel-Keeps i j s e = elim (Bool-cases (i % 2 == 0 && j % 2 == 0)) [
    | inl even ↦ elim (load-cases image (wrap (i * width + j))) [
      | inl none ↦ inl (rw (even, none))
      | inr (p, at) ↦ rw (even, at) (store_size s _ p size e)
    ]
    | inr odd ↦ inr (rw odd (Returns-ok e))
  ]

  pixel_fault :
      (i j : ℕ) (s : List Pixel)
      → i % 2 ≡ 0
      → j % 2 ≡ 0
      → size ≤ i / 2 * (width / 2) + j / 2
      → i / 2 * (width / 2) + j / 2 < 2 ^ 64
      → HasSize s
      → cut_pixel zero_pool image width (width / 2) i j s ≡ fault
  unfolding cut_pixel
  pixel_fault i j s ei ej out word e =
      let even : (i % 2 == 0 && j % 2 == 0) ≡ true = ground arith in
      elim (load-cases image (wrap (i * width + j))) [
        | inl none ↦ rw (even, none)
        | inr (p, at) ↦ rw (even, at, wrap_lem _ word) (store_fault s _ p (rw e out))
      ]

  row-Keeps :
      (i : ℕ) (n j : ℕ) (s : List Pixel)
      → HasSize s
      → Keeps (for_loop n j (cut_pixel zero_pool image width (width / 2) i) s)
  row-Keeps i n j s e = for_loop_keeps HasSize _ (λ x t h. pixel-Keeps i x t h) n j s e

  rows_fault :
      (i j : ℕ) (s : List Pixel)
      → i < height
      → j < width
      → i % 2 ≡ 0
      → j % 2 ≡ 0
      → size ≤ i / 2 * (width / 2) + j / 2
      → i / 2 * (width / 2) + j / 2 < 2 ^ 64
      → HasSize s
      → for_loop height 0 (λ y. for_loop width 0 (cut_pixel zero_pool image width (width / 2) y)) s
        ≡ fault
  rows_fault i j s hi hj ei ej out word e =
      for_loop_fault HasSize _ (λ y t h. row-Keeps y width 0 t h) i
        (λ t h.
          for_loop_fault HasSize _ (λ x u k. pixel-Keeps i x u k) j
            (λ u k. pixel_fault i j u ei ej out word k) width 0 t (omega arith) (omega arith) h)
        height 0 s (omega arith) (omega arith) e

mul_le : (a b c d : ℕ) → a ≤ c → b ≤ d → a * b ≤ c * d
mul_le a b c d h k = le_trans (step a b d k) (omega (arith, step d a c h))
  where
    step : (m x y : ℕ) → x ≤ y → m * x ≤ m * y
    step m x y e = grind arith

-- The place behind the end, from the last round that writes.
past_rows : (w h : ℕ) → h % 2 ≡ 1 → (h - 1) / 2 * (w / 2) + 0 / 2 ≡ w / 2 * (h / 2)
past_rows w h odd = let e : (h - 1) / 2 ≡ h / 2 = omega arith in rw e (omega arith)

past_cols :
    (w h : ℕ)
    → w % 2 ≡ 1
    → h % 2 ≡ 0
    → 0 < h
    → (h - 2) / 2 * (w / 2) + (w - 1) / 2 ≡ w / 2 * (h / 2)
past_cols w h odd even some_row =
    let e : h / 2 ≡ (h - 2) / 2 + 1 = omega arith in
    let e' : (w - 1) / 2 ≡ w / 2 = omega arith in rw (e, e') (omega arith)

-- An image that is not empty and has an odd number of rows or of columns makes `CutInHalf` write
-- behind the end of its result.
pub cut_in_half_odd :
    (zero_pool : ℕ → List Pixel) (image : List Pixel) (width height : ℕ)
    → 0 < width
    → 0 < height
    → (width % 2 ≡ 1) ⊎ (height % 2 ≡ 1)
    → width * height < 2 ^ 60
    → zero_pool (width / 2 * (height / 2) * 4) ≡ replicate (width / 2 * (height / 2)) zero_pixel
    → cut_in_half zero_pool image width height ≡ fault
unfolding cut_in_half
cut_in_half_odd zero_pool image width height hw hh odd small room =
    let size = width / 2 * (height / 2) in
    let quarter : 4 * size ≤ width * height = omega (
      arith,
      mul_le (2 * (width / 2)) (2 * (height / 2)) width height (omega arith) (omega arith),
    ) in
    let e = length-replicate size zero_pixel in
    rw (wrap_lem (size * 4) (omega arith), room)
      (elim (Bool-cases (height % 2 == 1)) [
        | inl odd_rows ↦
            rows_fault zero_pool image width height size (height - 1) 0 _ (omega arith) hw
              (ground arith) refl (ground (arith, past_rows width height))
              (ground (arith, past_rows width height)) e
        | inr even_rows ↦
            rows_fault zero_pool image width height size (height - 2) (width - 1) _ (ground arith)
              (omega arith) (ground arith) (ground arith) (ground (arith, past_cols width height))
              (ground (arith, past_cols width height)) e
      ])
