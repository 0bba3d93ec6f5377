-- ===== src/BootManager/Bmp.antt =====
-- Application/BootManager2D/src/BMPReader.c, `ReadBMP` (the same text in BootManager3D). A field of the
-- file is little-endian; an `INT32` is kept as its 32 bits. `zero_pool` stands for
-- `AllocateZeroPool`, from a number of bytes to the pixels there.
pub mod Header
pub mod Rows
use uefi_game.Prelude.{
  zero, suc, [], ◌∷◌, ℕ, ◌+◌, ◌-◌, ◌*◌, ◌^◌, Bool, false, Option, none, some, List, ltb, leb, ◌==◌,
  if◌then◌else◌, wrap, Result, ok, fault, ◌>>=◌, or_fault, load, store, for_loop,
}
use uefi_game.Efi.{Efi}
use uefi_game.Pixels.{Pixel}
use uefi_game.Int32.{is_negative, magnitude}
use uefi_game.BootManager.Files.{BootServices, read_file}

pub record Image : Type 0 where
  pub width : ℕ
  pub height : ℕ
  pub pixels : List Pixel

-- The status, and what is stored through the pointers, where it is.
pub record Bmp : Type 0 where
  pub status : ℕ
  pub image : Option Image

unfoldable pub u16_at : List ℕ → ℕ → Result ℕ
u16_at bytes i = do lo ← load bytes i; hi ← load bytes (i + 1); ok (lo + 256 * hi)

unfoldable pub u32_at : List ℕ → ℕ → Result ℕ
unfolding u16_at
u32_at bytes i = do lo ← u16_at bytes i; hi ← u16_at bytes (i + 2); ok (lo + 65536 * hi)

-- The sizes of the fields of `BMP_HEADER`, which is packed.
abbrev pub bmp_header : List ℕ
bmp_header =
    2 ∷ 4 ∷ 4 ∷ 4 ∷ 4 ∷ 4 ∷ 4 ∷ 2 ∷ 2 ∷ 4 ∷ 4 ∷ 4 ∷ 4 ∷ 4 ∷ 4 ∷ 4 ∷ 4 ∷ 4 ∷ 4 ∷ 4 ∷ 36 ∷ 4 ∷ 4 ∷ 4
    ∷ 4 ∷ 4 ∷ 4 ∷ 4 ∷ []

-- The offset of the field with number `n`.
abbrev pub offset_in : List ℕ → ℕ → ℕ
offset_in sizes zero = 0
offset_in [] (suc n) = 0
offset_in (size ∷ sizes) (suc n) = size + offset_in sizes n

-- `Signature`, `PixelsOffset`, `HeaderSize`, `Width`, `Height`, `BitsPerPixel`, `CompressionMethod`, and
-- the four masks.
abbrev pub signature : ℕ
signature = offset_in bmp_header 0

abbrev pub pixels_offset : ℕ
pixels_offset = offset_in bmp_header 3

abbrev pub header_size : ℕ
header_size = offset_in bmp_header 4

abbrev pub width : ℕ
width = offset_in bmp_header 5

abbrev pub height : ℕ
height = offset_in bmp_header 6

abbrev pub bits_per_pixel : ℕ
bits_per_pixel = offset_in bmp_header 8

abbrev pub compression_method : ℕ
compression_method = offset_in bmp_header 9

abbrev pub red_mask : ℕ
red_mask = offset_in bmp_header 15

abbrev pub green_mask : ℕ
green_mask = offset_in bmp_header 16

abbrev pub blue_mask : ℕ
blue_mask = offset_in bmp_header 17

abbrev pub alpha_mask : ℕ
alpha_mask = offset_in bmp_header 18

-- The conditions on the header; the first that fails decides.
pub is_supported : List ℕ → Result Bool
is_supported bytes = do
  magic ← u16_at bytes signature
  let rest5 = do blue ← u32_at bytes blue_mask; ok (blue == 0x000000ff)
  let rest4 = do green ← u32_at bytes green_mask; if green == 0x0000ff00 then rest5 else ok false
  let rest3 = do red ← u32_at bytes red_mask; if red == 0x00ff0000 then rest4 else ok false
  let rest2 = do alpha ← u32_at bytes alpha_mask; if alpha == 0xff000000 then rest3 else ok false
  let rest1 = do method ← u32_at bytes compression_method; if method == 3 then rest2 else ok false
  let rest0 = do bits ← u16_at bytes bits_per_pixel; if bits == 0x20 then rest1 else ok false
  let rest = do size ← u32_at bytes header_size; if size == 0x7c then rest0 else ok false
  if magic == 0x4d42 then rest else ok false

-- `(*Width) * (*Height)` on `INT32`s, as a `UINTN`; an overflow is undefined behaviour.
pub area : ℕ → ℕ → Result ℕ
area w h =
    let m = magnitude w * magnitude h in
    let above = if ltb m (2 ^ 31) then ok m else fault in
    let below = if leb m (2 ^ 31) then ok (wrap (2 ^ 64 - m)) else fault in
    if is_negative w
    then (if is_negative h then above else below)
    else if is_negative h
    then below
    else above

-- The rounds of a loop that counts up to, or down from, an `INT32`.
abbrev pub rounds : ℕ → ℕ
rounds n = if is_negative n then 0 else n

pub record Decoding : Type 0 where
  pub pixels : List Pixel
  pub cur_pixel_start : ℕ

pub copy_pixel : List ℕ → ℕ → ℕ → ℕ → Decoding → Result Decoding
copy_pixel bytes width y x d = do
  red ← load bytes (d.cur_pixel_start + 2)
  green ← load bytes (d.cur_pixel_start + 1)
  blue ← load bytes d.cur_pixel_start
  alpha ← load bytes (d.cur_pixel_start + 3)
  pixels ←
      store d.pixels (y * width + x)
        (record { blue = blue; green = green; red = red; reserved = alpha })
  ok (record { pixels = pixels; cur_pixel_start = d.cur_pixel_start + 4 })

module _ (efi : Efi) (bs : BootServices) (zero_pool : ℕ → List Pixel) where
  -- The rows are stored from the last one up.
  pub decode : List ℕ → Result Image
  decode bytes = do
    w ← u32_at bytes width
    h ← u32_at bytes height
    size ← area w h
    start ← u32_at bytes pixels_offset
    decoded ←
        for_loop (rounds h) 0 (λ t. for_loop (rounds w) 0 (copy_pixel bytes w (h - 1 - t)))
          (record { pixels = zero_pool (wrap (size * 4)); cur_pixel_start = start })
    ok (record { width = w; height = h; pixels = decoded.pixels })

  pub accept : List ℕ → Result Bmp
  accept bytes = do
    supported ← is_supported bytes
    let decoded = decode bytes >>= λ i. ok (record { status = efi.efi_success; image = some i })
    if supported then decoded else ok (record { status = efi.efi_unsupported; image = none })

  -- `filename` is `none` for a null pointer; the other pointers are not null.
  unfoldable pub read_bmp : ℕ → Option (List ℕ) → Result Bmp
  unfolding read_file u16_at u32_at is_supported area copy_pixel decode accept for_loop wrap
  read_bmp handle none = ok (record { status = efi.efi_invalid_parameter; image = none })
  read_bmp handle (some filename) = do
    file ← read_file efi bs handle (some filename)
    let accepted = or_fault file.contents >>= λ c. accept c.0
    let failed = ok (record { status = file.status; image = none })
    if efi.efi_error file.status then failed else accepted
