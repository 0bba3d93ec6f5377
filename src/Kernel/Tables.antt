-- ===== src/Kernel/Tables.antt =====
-- Application/XV6/xv6.h, and Application/XV6/xv6.c, `UefiMain`: the structure `boot` with the
-- descriptor table, in the memory. The structure is packed: `entry`, `entry_addr` and `madt_addr` have
-- eight bytes each, `gdt` has three descriptors of eight bytes from 24 on, and the pointer `gdt_desc`
-- is at 48.
pub mod Stores
pub mod Descriptors
pub mod Flat
pub mod Overlap
use uefi_game.Prelude.{
  ℕ, zero, suc, ◌+◌, ◌-◌, ◌*◌, ◌/◌, ◌%◌, ◌^◌, List, [], ◌∷◌, ◌++◌, ◌==◌, if◌then◌else◌, wrap,
}
use uefi_game.Kernel.{Memory}

-- `gdt`: a segment descriptor.
pub record Gdt : Type 0 where
  pub limit : ℕ
  pub base1 : ℕ
  pub base2 : ℕ
  pub access_byte : ℕ
  pub flags : ℕ
  pub base3 : ℕ

-- A little-endian number of `n` bytes.
abbrev pub number_in : ℕ → Memory → ℕ → ℕ
number_in zero m a = 0
number_in (suc n) m a = m a + 256 * number_in n m (a + 1)

abbrev pub bytes_of : ℕ → ℕ → List ℕ
bytes_of zero v = []
bytes_of (suc n) v = v % 256 ∷ bytes_of n (v / 256)

abbrev pub put : ℕ → ℕ → Memory → Memory
put a v m b = if b == a then v else m b

pub store_bytes : ℕ → List ℕ → Memory → Memory
store_bytes a [] m = m
store_bytes a (v ∷ vs) m = store_bytes (a + 1) vs (put a v m)

abbrev pub entry_addr_at : ℕ → ℕ
entry_addr_at boot = boot + 8

abbrev pub gdt_at : ℕ → ℕ
gdt_at boot = boot + 24

abbrev pub gdt_desc_at : ℕ → ℕ
gdt_desc_at boot = boot + 48

-- `boot->gdt_desc`
abbrev pub gdt_desc : Memory → ℕ → ℕ
gdt_desc m boot = number_in 8 m (gdt_desc_at boot)

abbrev pub descriptor_in : Memory → ℕ → Gdt
descriptor_in m a = record {
  limit = number_in 2 m a;
  base1 = number_in 2 m (a + 2);
  base2 = m (a + 4);
  access_byte = m (a + 5);
  flags = m (a + 6);
  base3 = m (a + 7);
}

abbrev pub descriptor_bytes : Gdt → List ℕ
descriptor_bytes g =
    bytes_of 2 g.limit
    ++ bytes_of 2 g.base1
    ++ bytes_of 1 g.base2
    ++ bytes_of 1 g.access_byte
    ++ bytes_of 1 g.flags
    ++ bytes_of 1 g.base3

abbrev pub sta_x : ℕ
sta_x = 0x8

abbrev pub sta_w : ℕ
sta_w = 0x2

abbrev pub sta_r : ℕ
sta_r = 0x2

-- `(0xffffffff >> 12) & 0xFFFF`
abbrev pub limit_low : ℕ
limit_low = 0xffffffff / 2 ^ 12 % 0x10000

-- `0xC0 | ((0xffffffff >> 28) & 0xF)`: the two have no bit in common.
abbrev pub flags_high : ℕ
flags_high = 0xC0 + 0xffffffff / 2 ^ 28 % 0x10

pub null_descriptor : Gdt
null_descriptor = record { limit = 0; base1 = 0; base2 = 0; access_byte = 0; flags = 0; base3 = 0 }

-- `0x90 | STA_X | STA_R`: no bits in common.
pub code_descriptor : Gdt
code_descriptor = record {
  limit = limit_low;
  base1 = 0x0 % 0x10000;
  base2 = 0x0 / 2 ^ 16 % 0x100;
  access_byte = 0x90 + sta_x + sta_r;
  flags = flags_high;
  base3 = 0x0 / 2 ^ 24 % 0x100;
}

-- `0x90 | STA_W`
pub data_descriptor : Gdt
data_descriptor = record {
  limit = limit_low;
  base1 = 0x0 % 0x10000;
  base2 = 0x0 / 2 ^ 16 % 0x100;
  access_byte = 0x90 + sta_w;
  flags = flags_high;
  base3 = 0x0 / 2 ^ 24 % 0x100;
}

-- From `boot->entry` on; a descriptor has eight bytes. The pointer `boot->gdt_desc` is read from the
-- memory for each store through it.
unfoldable pub fill_boot : ℕ → ℕ → Memory → Memory
unfolding store_bytes null_descriptor code_descriptor data_descriptor wrap
fill_boot entry_address boot m =
    let first = store_bytes boot (bytes_of 8 entry_address) m in
    let entered = store_bytes (entry_addr_at boot) (bytes_of 8 entry_address) first in
    let sized = store_bytes (gdt_desc entered boot) (bytes_of 2 (8 * 3 - 1)) entered in
    let described = store_bytes (wrap (gdt_desc sized boot + 2)) (bytes_of 8 (gdt_at boot)) sized in
    let null_segment = store_bytes (gdt_at boot) (descriptor_bytes null_descriptor) described in
    let code_segment =
      store_bytes (gdt_at boot + 8) (descriptor_bytes code_descriptor) null_segment in
    store_bytes (gdt_at boot + 16) (descriptor_bytes data_descriptor) code_segment
