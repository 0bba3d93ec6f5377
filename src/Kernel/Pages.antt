-- ===== src/Kernel/Pages.antt =====
-- Application/XV6/xv6.c, `UefiMain`: the pages that are allocated for the kernel. The loop on the
-- headers does nothing: its body stands behind a `continue`.
pub mod Cover
use uefi_game.Prelude.{ℕ, zero, suc, ◌+◌, ◌-◌, ◌*◌, ◌/◌, ◌%◌, ◌^◌, wrap}
use uefi_game.Kernel.{Memory, ProgramHeader, header_at, elf_header_at}

-- `x & ~m` on the `n` lowest bits.
pub and_not : ℕ → ℕ → ℕ → ℕ
and_not zero x m = 0
and_not (suc n) x m = 2 * and_not n (x / 2) (m / 2) + x % 2 * (1 - m % 2)

-- `pages_start` and `pages_end`
pub record Pages : Type 0 where
  pub pages_start : ℕ
  pub pages_end : ℕ

-- `(pages_end + mask) & ~mask`, with the mask `ph->align - 1` of 32 bits.
pub round_up : ℕ → ℕ → ℕ
unfolding and_not wrap
round_up align e = let mask = (align + 2 ^ 32 - 1) % 2 ^ 32 in and_not 64 (wrap (e + mask)) mask

pub first_pages : ProgramHeader → Pages
unfolding round_up wrap
first_pages ph = record {
  pages_start = ph.paddr;
  pages_end = round_up ph.align (wrap (ph.paddr + ph.memsz));
}

-- The first loop on the headers.
pub scan_headers : ℕ → ℕ → Memory → Pages → Pages
scan_headers zero ph m pages = pages
scan_headers (suc n) ph m pages = scan_headers n (ph + 32) m pages

-- What `AllocatePages` is asked for: an address and a number of pages.
pub page_size : Pages → ℕ
unfolding wrap
page_size p = wrap (p.pages_end + 2 ^ 64 - p.pages_start) / 4096 + 1

unfoldable pub kernel_pages : ℕ → Memory → ℕ × ℕ
unfolding first_pages scan_headers page_size
kernel_pages buffer m =
    let elf = elf_header_at m buffer in
    let ph = buffer + elf.phoff in
    let pages = scan_headers elf.phnum ph m (first_pages (header_at m ph)) in
    (pages.pages_start, page_size pages)
