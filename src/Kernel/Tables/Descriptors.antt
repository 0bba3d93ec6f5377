-- ===== src/Kernel/Tables/Descriptors.antt =====
-- What the processor makes of a descriptor.
use uefi_game.Prelude.{
  ℕ, ◌+◌, ◌*◌, ◌/◌, ◌%◌, ◌^◌, ◌≡◌, refl, Bool, true, false, not, ◌&&◌, ◌||◌, arith, ◌==◌,
  if◌then◌else◌,
}
use uefi_game.Kernel.Tables.{Gdt, code_descriptor, data_descriptor}
use uefi_game.Kernel.Tables.Stores.{IsNarrow}

-- The address of the segment: its three parts together.
pub base_of : Gdt → ℕ
base_of g = g.base1 + 2 ^ 16 * g.base2 + 2 ^ 24 * g.base3

-- Its size: a limit of 20 bits, in pages if the top bit of the flags says so.
pub size_of : Gdt → ℕ
size_of g =
    let units = g.limit + 2 ^ 16 * (g.flags % 2 ^ 4) + 1 in
    if g.flags / 2 ^ 7 % 2 == 1 then units * 4096 else units

-- The bits of the access byte.
abbrev pub access_bit : ℕ → Gdt → Bool
access_bit k g = g.access_byte / 2 ^ k % 2 == 1

-- A present segment of the kernel over all of the four gigabytes, of 32 bits.
pub record IsFlat (g : Gdt) : Type 0 where
  pub base : base_of g ≡ 0
  pub size : size_of g ≡ 2 ^ 32
  pub present : access_bit 7 g ≡ true
  pub segment : access_bit 4 g ≡ true
  pub kernel : (access_bit 6 g || access_bit 5 g) ≡ false
  pub wide : (g.flags / 2 ^ 6 % 2 == 1) ≡ true

pub code-IsFlat : IsFlat code_descriptor
unfolding base_of size_of code_descriptor
code-IsFlat = record {
  base = refl;
  size = refl;
  present = refl;
  segment = refl;
  kernel = refl;
  wide = refl;
}

pub data-IsFlat : IsFlat data_descriptor
unfolding base_of size_of data_descriptor
data-IsFlat = record {
  base = refl;
  size = refl;
  present = refl;
  segment = refl;
  kernel = refl;
  wide = refl;
}

pub x_lem : access_bit 3 code_descriptor ≡ true
unfolding code_descriptor
x_lem = refl

pub w_lem : (not (access_bit 3 data_descriptor) && access_bit 1 data_descriptor) ≡ true
unfolding data_descriptor
w_lem = refl

pub code-IsNarrow : IsNarrow code_descriptor
unfolding code_descriptor
code-IsNarrow = (omega arith, omega arith, omega arith, omega arith, omega arith, omega arith)

pub data-IsNarrow : IsNarrow data_descriptor
unfolding data_descriptor
data-IsNarrow = (omega arith, omega arith, omega arith, omega arith, omega arith, omega arith)
