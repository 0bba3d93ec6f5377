-- ===== src/BootManager3D/Floor/Halves.antt =====
-- The lower half of the screen shows the floor and the upper half the ceiling.
use uefi_game.Prelude.{
  ℕ, ◌+◌, ◌-◌, ◌*◌, ◌≤◌, ◌<◌, ◌≡◌, refl, ◌∙◌, ◌≢◌, ◌⊎◌, inl, inr, some, List, arith, dec_lt,
  ℕ_discrete, length, get_elem?, set, length-set, get_elem?-of_lt, get_elem?-set_cases, ok, ◌>>=◌,
  Returns, Returns-ok, Returns-bind, Returns-map, store_lem, for_loop, for_loop_from_zero,
}
use native.Mathlib.Nat.{mod-lt}
use uefi_game.Doubles.{Doubles}
use uefi_game.Pixels.{Pixel}
use uefi_game.BootManager3D.View.{image_width, image_height, tex_width, tex_height, View, darken}
use uefi_game.BootManager3D.Floor.{
  floor_num, ceil_num, Casting, texel, cast_pixel, cast_row, cast_floor,
}

-- A darkened pixel of an image.
abbrev pub IsShade : List Pixel → Pixel → Type 0
IsShade image p = (k : ℕ) × (q : Pixel) × (get_elem? image k ≡ some q) × (p ≡ darken q)

-- Both images, each of a full texture.
pub record HasImages (textures : List (List Pixel)) : Type 0 where
  pub floor : List Pixel
  pub ceiling : List Pixel
  pub floor_there : get_elem? textures floor_num ≡ some floor
  pub ceiling_there : get_elem? textures ceil_num ≡ some ceiling
  pub floor_full : tex_height * tex_width ≤ length floor
  pub ceiling_full : tex_height * tex_width ≤ length ceiling

abbrev pub screen_size : ℕ
screen_size = image_height * image_width

module _ (textures : List (List Pixel)) (images : HasImages textures) where
  -- The pixels before column `k` of row `i`, and all of the rows before, are drawn.
  record Drawn (i k : ℕ) (s : List Pixel) : Type 0 where
    size : length s ≡ screen_size
    lower :
        (r x : ℕ) (p : Pixel)
        → 320 ≤ r
        → x < image_width
        → (r < i) ⊎ (r ≡ i) × (x < k)
        → get_elem? s (r * image_width + x) ≡ some p
        → IsShade images.floor p
    upper :
        (r x : ℕ) (p : Pixel)
        → r < 320
        → x < image_width
        → (639 < i + r) ⊎ (i + r ≡ 639) × (x < k)
        → get_elem? s (r * image_width + x) ≡ some p
        → IsShade images.ceiling p

  -- One write to row `i`, or to its mirror image.
  at_pixel :
      (s : List Pixel) (r x y j : ℕ) (c p : Pixel)
      → x < image_width
      → j < image_width
      → get_elem? (set s (y * image_width + j) c) (r * image_width + x) ≡ some p
      → (r ≡ y) × (x ≡ j) × (p ≡ c)
        ⊎ ((r ≢ y) ⊎ (x ≢ j)) × (get_elem? s (r * image_width + x) ≡ some p)
  at_pixel s r x y j c p hx hj e =
      elim (get_elem?-set_cases s (y * image_width + j) (r * image_width + x) c e) [
        | inl (same, f) ↦ inl (omega arith, omega arith, f)
        | inr (ne, f) ↦
            inr (elim (ℕ_discrete r y) [ yes g ↦ inr (λ h. ne (omega arith)) | no g ↦ inl g ], f)
      ]

  before :
      (i k r x : ℕ)
      → (r ≢ i) ⊎ (x ≢ k)
      → (r < i) ⊎ (r ≡ i) × (x < k + 1)
      → (r < i) ⊎ (r ≡ i) × (x < k)
  before i k r x (inl ne) done = omega arith
  before i k r x (inr ne) done = omega arith

  mirror :
      (i k r x : ℕ)
      → i < image_height
      → (r ≢ image_height - i - 1) ⊎ (x ≢ k)
      → (639 < i + r) ⊎ (i + r ≡ 639) × (x < k + 1)
      → (639 < i + r) ⊎ (i + r ≡ 639) × (x < k)
  mirror i k r x hi (inl ne) done = omega arith
  mirror i k r x hi (inr ne) done = omega arith

  draw_lem :
      (i k : ℕ) (s : List Pixel) (a b : Pixel)
      → i < image_height
      → k < image_width
      → IsShade images.floor a
      → IsShade images.ceiling b
      → Drawn i k s
      → Drawn i
          (k + 1)
          (set (set s (i * image_width + k) a) ((image_height - i - 1) * image_width + k) b)
  draw_lem i k s a b hi hk sa sb d = record {
    size =
        length-set (set s (i * image_width + k) a) _ b
        ∙ length-set s (i * image_width + k) a
        ∙ d.size;
    lower = λ r x p low hx done e.
        elim (at_pixel (set s (i * image_width + k) a) r x (image_height - i - 1) k b p hx hk e) [
          | inl (er, ex, same) ↦ absurd (omega arith)
          | inr (other, f) ↦ elim (at_pixel s r x i k a p hx hk f) [
            | inl (er, ex, same) ↦ rw same sa
            | inr (ne, g) ↦ d.lower r x p low hx (before i k r x ne done) g
          ]
        ];
    upper = λ r x p low hx done e.
        elim (at_pixel (set s (i * image_width + k) a) r x (image_height - i - 1) k b p hx hk e) [
          | inl (er, ex, same) ↦ rw same sb
          | inr (ne, f) ↦ elim (at_pixel s r x i k a p hx hk f) [
            | inl (er, ex, same) ↦ absurd (omega arith)
            | inr (other, g) ↦ d.upper r x p low hx (mirror i k r x hi ne done) g
          ]
        ];
  }

  module _ (d : Doubles) (v : View d) where
    texel_lt : (size : ℕ) (a : d.Double) → 0 < size → texel d size a < size
    unfolding texel
    texel_lt size a h = mod-lt _ h

    abbrev Cast : ℕ → ℕ → Casting d → Type 0
    Cast i k c = Drawn i k c.screen

    pixel_lem :
        (i k : ℕ) (step_x step_y : d.Double) (c : Casting d)
        → i < image_height
        → k < image_width
        → Cast i k c
        → Returns (Cast i (k + 1)) (cast_pixel d textures i step_x step_y k c)
    unfolding cast_pixel
    pixel_lem i k step_x step_y c hi hk h =
        let ty = texel_lt tex_height c.floor_y (omega arith) in
        let tx = texel_lt tex_width c.floor_x (omega arith) in
        let at = texel d tex_height c.floor_y * tex_width + texel d tex_width c.floor_x in
        let (p, floor_at) = get_elem?-of_lt images.floor at (omega (arith, images.floor_full)) in
        let (q, ceil_at) = get_elem?-of_lt images.ceiling at (omega (arith, images.ceiling_full)) in
        let size = h.size in
        let lower = set c.screen (i * image_width + k) (darken p) in
        let kept = length-set c.screen (i * image_width + k) (darken p) in
        rw
          (
            images.floor_there,
            floor_at,
            store_lem c.screen (i * image_width + k) (darken p) (omega arith),
            images.ceiling_there,
            ceil_at,
            store_lem lower ((image_height - i - 1) * image_width + k) (darken q) (omega arith),
          )
          (Returns-ok (
            draw_lem i k c.screen (darken p) (darken q) hi hk (at, p, floor_at, refl)
              (at, q, ceil_at, refl) h))

    Drawn-next :
        (i : ℕ) (s : List Pixel) → i < image_height → Drawn i image_width s → Drawn (i + 1) 0 s
    Drawn-next i s hi h = record {
      size = h.size;
      lower = λ r x p low hx done e. h.lower r x p low hx (omega arith) e;
      upper = λ r x p low hx done e. h.upper r x p low hx (omega arith) e;
    }

    pixels_lem :
        (i : ℕ) (step_x step_y : d.Double) (c : Casting d)
        → i < image_height
        → Cast i 0 c
        → Returns
            (λ (s : List Pixel). Drawn (i + 1) 0 s)
            (for_loop image_width 0 (cast_pixel d textures i step_x step_y) c >>= λ c'.
              ok c'.screen)
    pixels_lem i step_x step_y c hi h =
        Returns-bind (λ c'. ok c'.screen)
          (for_loop_from_zero (Cast i) (cast_pixel d textures i step_x step_y) image_width
            (λ k c' hk g. pixel_lem i k step_x step_y c' hi hk g) c h)
          (λ c' g. Returns-ok (Drawn-next i c'.screen hi g))

    row_lem :
        (i : ℕ) (s : List Pixel)
        → i < image_height
        → Drawn i 0 s
        → Returns (Drawn (i + 1) 0) (cast_row d textures v i s)
    unfolding cast_row
    row_lem i s hi h = pixels_lem i _ _ (record { floor_x = _; floor_y = _; screen = s }) hi h

    -- With both images of a full texture and a buffer for the screen, the floor and the ceiling are
    -- drawn without an access out of bounds, wherever the player stands and whatever the doubles are.
    -- Every pixel of the lower half is a darkened pixel of the image of the floor, every pixel of the
    -- upper half one of the image of the ceiling.
    pub cast_floor_lem :
        (screen : List Pixel)
        → length screen ≡ screen_size
        → Returns
            (λ (s : List Pixel).
              (length s ≡ screen_size)
              × ((r x : ℕ) (p : Pixel)
                  → r < image_height
                  → x < image_width
                  → get_elem? s (r * image_width + x) ≡ some p
                  → (320 ≤ r) × IsShade images.floor p ⊎ (r < 320) × IsShade images.ceiling p))
            (cast_floor d textures v screen)
    unfolding cast_floor
    cast_floor_lem screen size =
        Returns-map
          (for_loop_from_zero (λ i s. Drawn i 0 s) (cast_row d textures v) image_height
            (λ i s hi h. row_lem i s hi h) screen
            (record {
              size = size;
              lower = λ r x p low hx done e. absurd (omega arith);
              upper = λ r x p low hx done e. absurd (omega arith);
            }))
          (λ s h. (
            h.size,
            λ r x p hr hx e. elim (dec_lt r 320) [
              | yes low ↦ inr (low, h.upper r x p low hx (inl (omega arith)) e)
              | no high ↦ inl (omega arith, h.lower r x p (omega arith) hx (inl hr) e)
            ],
          ))
