-- ===== src/BootManager3D/Walls/Columns.antt =====
-- A column of the screen shows the wall that its ray meets.
use uefi_game.Prelude.{
  ℕ, ◌+◌, ◌-◌, ◌*◌, ◌%◌, ◌^◌, ◌≤◌, ◌<◌, ◌≡◌, refl, ap, ◌∙◌, ◌⊎◌, inl, inr, Bool, true, false, some,
  List, arith, leb, ◌==◌, if◌then◌else◌, Bool-cases, length, get_elem?, length-set, get_elem?-of_lt,
  get_elem?-set_cases, ok, ◌>>=◌, Returns, Returns-ok, Returns-bind, Returns-map, store_lem,
  for_loop, for_loop_inv,
}
use native.Mathlib.Nat.{mod-lt}
use uefi_game.Doubles.{Doubles}
use uefi_game.Doubles.Laws.{Le, naught, IsFinite, IsRounded}
use uefi_game.Int32.{extend, extend_lem}
use uefi_game.Pixels.{Pixel}
use uefi_game.BootManager3D.View.{
  image_width, image_height, tex_width, tex_height, View, Level, darken,
}
use uefi_game.BootManager3D.Floor.Halves.{screen_size}
use uefi_game.BootManager3D.Rays.{Ray, is_positive, start_ray, walk_ray}
use uefi_game.BootManager3D.Rays.Ends.{Holds, IsWalled, Inside, Inner, cell_at_lem, walk_ray_lem}
use uefi_game.BootManager3D.Walls.{
  as_int, draw_start, draw_end, mirror, Strip, wall_at, wall_x, column_tex_x, paint_pixel,
  draw_wall, draw_column,
}

-- A pixel of an image, as it is or darkened.
abbrev pub IsWallPixel : List Pixel → Pixel → Type 0
IsWallPixel image p =
    (k : ℕ) × (q : Pixel) × (get_elem? image k ≡ some q) × ((p ≡ q) ⊎ (p ≡ darken q))

-- Every positive cell has a texture.
abbrev pub IsTextured : Level → List (List Pixel) → Type 0
IsTextured level textures =
    (k v : ℕ)
    → get_elem? level.map k ≡ some v
    → is_positive v ≡ true
    → (v < 2 ^ 31)
      × ((image : List Pixel) × (get_elem? textures v ≡ some image)
          × (tex_height * tex_width ≤ length image))

-- The pixels that differ stand in column `x` and show the image.
abbrev pub Shows : List Pixel → ℕ → List Pixel → List Pixel → Type 0
Shows image x screen s =
    (length s ≡ screen_size)
    × ((r c : ℕ) (p : Pixel)
        → r < image_height
        → c < image_width
        → get_elem? s (r * image_width + c) ≡ some p
        → (get_elem? screen (r * image_width + c) ≡ some p) ⊎ (c ≡ x) × IsWallPixel image p)

cap_lt :
    (e : ℕ)
    → e < 2 ^ 32
    → (if leb image_height (extend e) then image_height - 1 else e) < image_height
unfolding extend
cap_lt e h = ground arith

draw_end_lt : (line_height : ℕ) → draw_end line_height < image_height
unfolding draw_end
draw_end_lt line_height = cap_lt _ (mod-lt _ (omega arith))

mirror_lt : (t : ℕ) → t < tex_width → mirror t < tex_width
mirror_lt t h = omega arith

choose_lt :
    (a b : Bool) (t : ℕ)
    → t < tex_width
    → (if b then mirror (if a then mirror t else t) else if a then mirror t else t) < tex_width
choose_lt false false t h = h
choose_lt true false t h = mirror_lt t h
choose_lt false true t h = mirror_lt t h
choose_lt true true t h = mirror_lt (mirror t) (mirror_lt t h)

module _ (d : Doubles) where
  open d use {times, to_int, of_int}

  -- The coordinate along the wall of the ray's end is finite and not negative.
  abbrev pub EndsOnMap : View d → Ray d → Type 0
  EndsOnMap v r = Le d (naught d) (wall_at d v r) × IsFinite d (wall_at d v r)

  -- So it is for every ray from this view.
  abbrev pub AllEndOnMap : Level → ℕ → View d → Type 0
  AllEndOnMap level fuel v =
      (x : ℕ) (r : Ray d)
      → x < image_width
      → walk_ray d level fuel (start_ray d v x) ≡ ok (some r)
      → EndsOnMap v r

  column_tex_x_lt :
      (v : View d) (r : Ray d) → IsRounded d → EndsOnMap v r → column_tex_x d v r < tex_width
  unfolding column_tex_x wall_x
  column_tex_x_lt v r rounded h = choose_lt _ _ _ (rounded.fraction (wall_at d v r) h.0 h.1)

  module _ (textures : List (List Pixel)) (image screen : List Pixel) (x side num tex_x : ℕ)
      (step : d.Double) (low : x < image_width) (small : num < 2 ^ 31)
      (there : get_elem? textures num ≡ some image) (full : tex_height * tex_width ≤ length image)
      (fits : tex_x < tex_width) where
    abbrev Painted : ℕ → Strip d → Type 0
    Painted y s = Shows image x screen s.screen

    shade-cases :
        (k : ℕ) (q : Pixel)
        → get_elem? image k ≡ some q
        → IsWallPixel image (if side == 1 then darken q else q)
    shade-cases k q e = elim (Bool-cases (side == 1)) [
      | inl dark ↦ rw dark (k, q, e, inr refl)
      | inr plain ↦ rw plain (k, q, e, inl refl)
    ]

    paint_lem :
        (y : ℕ) (s : Strip d)
        → y < image_height
        → Painted y s
        → Returns (Painted (y + 1)) (paint_pixel d textures side num tex_x step x y s)
    unfolding paint_pixel
    paint_lem y s hy h =
        let ty = mod-lt (to_int s.tex_pos) {m = tex_height} (omega arith) in
        let at = to_int s.tex_pos % tex_height * tex_width + tex_x in
        let narrow : as_int at ≡ at = omega arith in
        let (q, e) = get_elem?-of_lt image at (omega arith) in
        let c = if side == 1 then darken q else q in
        rw
          (
            extend_lem num small,
            there,
            narrow,
            extend_lem at (omega arith),
            e,
            store_lem s.screen (y * image_width + x) c (omega (arith, h.0)),
          )
          (Returns-ok (
            length-set s.screen (y * image_width + x) c ∙ h.0,
            λ r k p hr hk f.
                elim (get_elem?-set_cases s.screen (y * image_width + x) (r * image_width + k) c
                  f) [
                    | inl (same, g) ↦ inr (omega arith, rw g (shade-cases at q e))
                    | inr (ne, g) ↦ h.1 r k p hr hk g
                  ],
          ))

    strip_lem :
        (line_height : ℕ) (from : d.Double)
        → length screen ≡ screen_size
        → Returns
            (λ (s : List Pixel). Shows image x screen s)
            (for_loop
                (draw_end line_height - draw_start line_height)
                (draw_start line_height)
                (paint_pixel d textures side num tex_x step x)
                (record { tex_pos = from; screen = screen })
              >>= λ s. ok s.screen)
    strip_lem line_height from size =
        let top = draw_start line_height in
        let bottom = draw_end line_height in
        let last = draw_end_lt line_height in
        Returns-bind (λ s. ok s.screen)
          (for_loop_inv (λ y s. (top ≤ y) × Painted y s)
            (paint_pixel d textures side num tex_x step x) (top + (bottom - top))
            (λ y s hy h.
              Returns-map (paint_lem y s (omega arith) h.1) (λ t g. (omega (arith, h.0), g)))
            (bottom - top) top (record { tex_pos = from; screen = screen }) refl
            (omega arith, (size, λ r c p hr hc e. inl e)))
          (λ s h. Returns-ok h.1)

  module _ (level : Level) (height : ℕ) (walled : IsWalled level height)
      (textures : List (List Pixel)) (textured : IsTextured level textures) where
    -- What a column of the screen becomes.
    pub record Column (v : View d) (x : ℕ) (screen s : List Pixel) : Type 0 where
      pub map_y : ℕ
      pub map_x : ℕ
      pub value : ℕ
      pub image : List Pixel
      pub met : Inside level height walled map_y map_x
      pub holds : Holds level map_y map_x value
      pub positive : is_positive value ≡ true
      pub texture : get_elem? textures value ≡ some image
      pub shows : Shows image x screen s

    -- In a walled map with textures for its positive cells, a column of the screen is drawn without an
    -- access out of bounds, if the `double`s are rounded and its ray ends on the map: nothing changes but
    -- pixels of this column, which show the texture of a cell with a positive value.
    pub draw_column_lem :
        (v : View d) (x fuel : ℕ) (screen : List Pixel)
        → x < image_width
        → Inner level height walled (to_int v.pos_y) (to_int v.pos_x)
        → level.map_width + height ≤ fuel
        → IsRounded d
        → ((r : Ray d) → walk_ray d level fuel (start_ray d v x) ≡ ok (some r) → EndsOnMap v r)
        → length screen ≡ screen_size
        → Returns (Column v x screen) (draw_column d textures level fuel v x screen)
    unfolding draw_column draw_wall
    draw_column_lem v x fuel screen low inner enough rounded hits size =
        let m = walk_ray_lem level height walled d v x fuel inner enough in
        let r = m.holds.ray in
        let met = m.returns ∙ ap ok m.holds.found in
        let inside = m.holds.inside in
        let t = textured _ m.holds.value m.holds.holds m.holds.positive in
        let image = t.1.0 in
        let narrow : as_int m.holds.value ≡ m.holds.value = omega (arith, t.0) in
        let fits = column_tex_x_lt v r rounded (hits r met) in
        let read =
          cell_at_lem level height walled r.map_y r.map_x m.holds.value inside m.holds.holds in
        rw (met, read, narrow)
          (Returns-map
            (strip_lem textures image screen x r.side m.holds.value (column_tex_x d v r) _ low t.0
              t.1.1 t.1.2 fits _ _ size)
            (λ s shows. record {
              map_y = r.map_y;
              map_x = r.map_x;
              value = m.holds.value;
              image = image;
              met = inside;
              holds = m.holds.holds;
              positive = m.holds.positive;
              texture = t.1.1;
              shows = shows;
            }))
