-- ===== src/BootManager/Bmp/Rows.antt =====
-- The picture that `ReadBMP` stores.
use uefi_game.Prelude.{
  ℕ, ◌+◌, ◌-◌, ◌*◌, ◌^◌, ◌≤◌, ◌<◌, ◌≡◌, refl, ap, ◌∙◌, false, none, some, List, arith, wrap_lem,
  length, replicate, get_elem?, length-replicate, get_or, get_elem?-eq-get_or, Result, ok, ◌>>=◌,
  Returns, Returns-ok, Returns-map, store, store_lem, for_loop, InGrid, grid_lem, row_major_lt,
  row_major_inj, for_loop_carry,
}
use uefi_game.Efi.{Efi}
use uefi_game.Pixels.{Pixel, zero_pixel}
use uefi_game.BootManager.Files.{BootServices, FileRead, read_file}
use uefi_game.BootManager.Bmp.{Image, Bmp, area, rounds, Decoding, copy_pixel, decode, read_bmp}
use uefi_game.BootManager.Bmp.Header.{
  IsSupported, word32, u32_at_lem, is_supported_lem, is_supported_reject,
}

-- Four bytes of the file, as a pixel.
abbrev pub pixel_at : List ℕ → ℕ → Pixel
pixel_at bytes i = record {
  blue = get_or bytes i 0;
  green = get_or bytes (i + 1) 0;
  red = get_or bytes (i + 2) 0;
  reserved = get_or bytes (i + 3) 0;
}

module _ (bytes : List ℕ) (w h start : ℕ) (inside : start + 4 * (h * w) ≤ length bytes) where
  abbrev at : ℕ → ℕ → List Pixel → Decoding
  at t x s = record { pixels = s; cur_pixel_start = start + 4 * (t * w + x) }

  abbrev put : ℕ → ℕ → List Pixel → Result (List Pixel)
  put t x s = store s ((h - 1 - t) * w + x) (pixel_at bytes (start + 4 * (t * w + x)))

  copy_pixel_lem :
      (t x : ℕ) (s : List Pixel)
      → t < h
      → x < w
      → copy_pixel bytes w (h - 1 - t) x (at t x s) ≡ (put t x s >>= λ s'. ok (at t (x + 1) s'))
  unfolding copy_pixel
  copy_pixel_lem t x s ht hx =
      let low = row_major_lt h w (t, x) (ht, hx) in
      let i = start + 4 * (t * w + x) in
      let next : i + 4 ≡ start + 4 * (t * w + (x + 1)) = omega arith in
      rw (
        get_elem?-eq-get_or bytes (i + 2) 0 (omega arith),
        get_elem?-eq-get_or bytes (i + 1) 0 (omega arith),
        get_elem?-eq-get_or bytes i 0 (omega arith),
        get_elem?-eq-get_or bytes (i + 3) 0 (omega arith),
        next,
      )

  row_lem :
      (t : ℕ) (s : List Pixel)
      → t < h
      → for_loop w 0 (copy_pixel bytes w (h - 1 - t)) (at t 0 s)
        ≡ (for_loop w 0 (put t) s >>= λ s'. ok (at (t + 1) 0 s'))
  row_lem t s ht =
      let next : t * w + w ≡ (t + 1) * w + 0 = grind arith in
      rw next at (
        for_loop_carry (at t) (copy_pixel bytes w (h - 1 - t)) (put t) w
          (λ x s' hx. copy_pixel_lem t x s' ht hx) w 0 s (omega arith))

  rows_lem :
      (s : List Pixel)
      → for_loop h 0
          (λ t. for_loop w 0 (copy_pixel bytes w (h - 1 - t)))
          (record { pixels = s; cur_pixel_start = start })
        ≡ (for_loop h 0 (λ t. for_loop w 0 (put t)) s >>= λ s'. ok (at h 0 s'))
  rows_lem s =
      let rows = λ (t : ℕ). for_loop w 0 (copy_pixel bytes w (h - 1 - t)) in
      let first : start ≡ start + 4 * (0 * w + 0) = omega arith in
      ap (λ c. for_loop h 0 rows (record { pixels = s; cur_pixel_start = c })) first
      ∙ for_loop_carry (λ t. at t 0) rows (λ t. for_loop w 0 (put t)) h (λ t s' ht. row_lem t s' ht)
          h 0 s (omega arith)

  cell : ℕ × ℕ → ℕ
  cell p = (h - 1 - p.0) * w + p.1

  shown : ℕ × ℕ → Pixel → Pixel
  shown p _ = pixel_at bytes (start + 4 * (p.0 * w + p.1))

  cell_lt : (p : ℕ × ℕ) → InGrid h w p → cell p < h * w
  unfolding cell
  cell_lt p i = row_major_lt h w (h - 1 - p.0, p.1) (omega arith, i.1)

  cell_inj : (p q : ℕ × ℕ) → InGrid h w p → InGrid h w q → cell p ≡ cell q → p ≡ q
  unfolding cell
  cell_inj p q i j e =
      let s = row_major_inj w (h - 1 - p.0, p.1) (h - 1 - q.0, q.1) i.1 j.1 e in
      let row : p.0 ≡ q.0 = omega (arith, ap (λ (r : ℕ × ℕ). r.0) s) in
      let column = ap (λ (r : ℕ × ℕ). r.1) s in ground arith

  -- The pixel in row `y` and column `x` of the image comes from row `h - 1 - y` of the file.
  picture_lem :
      (s : List Pixel)
      → length s ≡ h * w
      → Returns
          (λ (out : List Pixel).
            (length out ≡ h * w)
            × ((y x : ℕ)
                → y < h
                → x < w
                → get_elem? out (y * w + x)
                  ≡ some (pixel_at bytes (start + 4 * ((h - 1 - y) * w + x)))))
          (for_loop h 0 (λ t. for_loop w 0 (put t)) s)
  unfolding cell shown
  picture_lem s size =
      Returns-map
        (grid_lem h w (h * w) cell shown put cell_inj cell_lt
          (λ t x s' a ht hx e at'.
            store_lem s' ((h - 1 - t) * w + x) _ (rw e (cell_lt (t, x) (ht, hx))))
          s size)
        (λ out touched. (
          touched.size ∙ size,
          λ y x hy hx.
              let back : h - 1 - (h - 1 - y) ≡ y = omega arith in
              let low = row_major_lt h w (y, x) (hy, hx) in
              let a = get_or s (y * w + x) zero_pixel in
              let there = get_elem?-eq-get_or s (y * w + x) zero_pixel (omega arith) in
              let from : get_elem? s ((h - 1 - (h - 1 - y)) * w + x) ≡ some a = rw back there in
              rw back at (touched.inside (h - 1 - y, x) a (omega arith, hx) from),
        ))

-- A picture with `h` rows of `w` pixels, whose bytes start at `start`, and all of it in the file.
pub record Holds (bytes : List ℕ) (w h start : ℕ) : Type 0 where
  pub width : word32 bytes 18 ≡ w
  pub height : word32 bytes 22 ≡ h
  pub offset : word32 bytes 10 ≡ start
  pub narrow : w < 2 ^ 31
  pub low : h < 2 ^ 31
  pub small : w * h < 2 ^ 31
  pub header : 70 ≤ length bytes
  pub inside : start + 4 * (h * w) ≤ length bytes

-- What is stored through the pointers.
pub record Shows (bytes : List ℕ) (w h start : ℕ) (i : Image) : Type 0 where
  pub width : i.width ≡ w
  pub height : i.height ≡ h
  pub size : length i.pixels ≡ h * w
  pub pixel :
      (y x : ℕ)
      → y < h
      → x < w
      → get_elem? i.pixels (y * w + x) ≡ some (pixel_at bytes (start + 4 * ((h - 1 - y) * w + x)))

area_lem : (w h : ℕ) → w < 2 ^ 31 → h < 2 ^ 31 → w * h < 2 ^ 31 → area w h ≡ ok (w * h)
unfolding area
area_lem w h narrow low small = ground arith

rounds_lem : (n : ℕ) → n < 2 ^ 31 → rounds n ≡ n
rounds_lem n h = ground arith

module _ (efi : Efi) (bs : BootServices) (zero_pool : ℕ → List Pixel) where
  pub decode_lem :
      (bytes : List ℕ) (w h start : ℕ)
      → Holds bytes w h start
      → zero_pool (w * h * 4) ≡ replicate (h * w) zero_pixel
      → Returns (Shows bytes w h start) (decode efi bs zero_pool bytes)
  unfolding decode
  decode_lem bytes w h start b room =
      let size = length-replicate (h * w) zero_pixel in
      let p = picture_lem bytes w h start b.inside (replicate (h * w) zero_pixel) size in
      let long = b.header in
      let fits = b.small in
      let loops = rows_lem bytes w h start b.inside (replicate (h * w) zero_pixel) in
      rw
        (
          u32_at_lem bytes 18 (omega arith),
          u32_at_lem bytes 22 (omega arith),
          u32_at_lem bytes 10 (omega arith),
          b.width,
          b.height,
          b.offset,
          area_lem w h b.narrow b.low b.small,
          rounds_lem w b.narrow,
          rounds_lem h b.low,
          wrap_lem (w * h * 4) (omega arith),
          room,
          loops,
          p.returns,
        )
        (Returns-ok (record { width = refl; height = refl; size = p.holds.0; pixel = p.holds.1 }))

  -- The file is read, and its bytes are `bytes`.
  pub record Loaded (handle : ℕ) (name bytes : List ℕ) : Type 0 where
    pub file : FileRead
    pub size : ℕ
    pub read : read_file efi bs handle (some name) ≡ ok file
    pub good : efi.efi_error file.status ≡ false
    pub contents : file.contents ≡ some (bytes, size)

  -- A file that is read, has a header of the one supported form and holds its whole picture is
  -- decoded without an access out of bounds: the picture has the width and the height of the header,
  -- and its pixel in row `y` and column `x` is the one in column `x` of the file's row `h - 1 - y`.
  pub read_bmp_lem :
      (handle : ℕ) (name bytes : List ℕ) (w h start : ℕ)
      → Loaded handle name bytes
      → IsSupported bytes
      → Holds bytes w h start
      → zero_pool (w * h * 4) ≡ replicate (h * w) zero_pixel
      → Returns
          (λ (b : Bmp).
            (b.status ≡ efi.efi_success)
            × ((i : Image) × (b.image ≡ some i) × Shows bytes w h start i))
          (read_bmp efi bs zero_pool handle (some name))
  unfolding read_bmp
  read_bmp_lem handle name bytes w h start l s b room =
      let d = decode_lem bytes w h start b room in
      rw (l.read, l.good, l.contents, is_supported_lem bytes s b.header, d.returns)
        (Returns-ok (refl, (d.out, refl, d.holds)))

  -- A file of 70 bytes or more that is read, but whose header differs from the one supported form,
  -- is refused with `EFI_UNSUPPORTED`, and no picture is stored.
  pub read_bmp_unsupported :
      (handle : ℕ) (name bytes : List ℕ)
      → Loaded handle name bytes
      → ¬ IsSupported bytes
      → 70 ≤ length bytes
      → read_bmp efi bs zero_pool handle (some name)
        ≡ ok (record { status = efi.efi_unsupported; image = none })
  unfolding read_bmp
  read_bmp_unsupported handle name bytes l other long =
      rw (l.read, l.good, l.contents, is_supported_reject bytes other long)
