-- ===== src/Kernel/Pages/Cover.antt =====
-- The pages reach from the first segment to its end.
use uefi_game.Prelude.{
  ℕ, zero, suc, ◌+◌, ◌-◌, ◌*◌, ◌/◌, ◌%◌, ◌^◌, ◌≤◌, ◌<◌, ◌≡◌, refl, ap, ◌∙◌, arith, wrap, wrap_lem,
}
use native.Mathlib.Nat.{
  div-div-eq-div-mul, pow-succ', pow-le-pow_right, div-mul-le_self, lt-div-mul-add,
}
use uefi_game.Kernel.{Memory, ProgramHeader, u16_in, u32_in, header_at}
use uefi_game.Kernel.Pages.{
  and_not, Pages, round_up, first_pages, scan_headers, page_size, kernel_pages,
}

double : (k : ℕ) → (2 ^ suc k ≡ 2 * 2 ^ k) × (0 < 2 ^ k)
double zero = (refl, omega arith)
double (suc k) = let d = double k in (pow-succ' 2 (suc k), omega (arith, d.0, d.1))

-- `& ~(2 ^ k - 1)` rounds down to a multiple of `2 ^ k`.
and_not_lem : (n k x : ℕ) → k ≤ n → x < 2 ^ n → and_not n x (2 ^ k - 1) ≡ x / 2 ^ k * 2 ^ k
unfolding and_not
and_not_lem zero zero x h l = omega arith
and_not_lem zero (suc k) x h l = absurd (omega arith)
and_not_lem (suc n) zero x h l =
    let d = double n in
    let ih = and_not_lem n zero (x / 2) (omega arith) (omega arith) in omega arith
and_not_lem (suc n) (suc k) x h l =
    let d = double n in
    let c = double k in
    let ih = and_not_lem n k (x / 2) (omega arith) (omega arith) in
    let half : (2 * 2 ^ k - 1) / 2 ≡ 2 ^ k - 1 = omega arith in
    let odd : (2 * 2 ^ k - 1) % 2 ≡ 1 = omega arith in
    rw (c.0, half, odd, ih, ← div-div-eq-div-mul x 2 (2 ^ k)) (grind arith)

scan_lem : (n ph : ℕ) (m : Memory) (pages : Pages) → scan_headers n ph m pages ≡ pages
unfolding scan_headers
scan_lem zero ph m pages = refl
scan_lem (suc n) ph m pages = scan_lem n (ph + 32) m pages

-- The end of the pages: the least multiple of the alignment from `e` on.
round_up_lem :
    (k e : ℕ)
    → k < 32
    → e < 2 ^ 63
    → (r : ℕ) × (round_up (2 ^ k) e ≡ r * 2 ^ k) × (e ≤ r * 2 ^ k) × (r * 2 ^ k < e + 2 ^ k)
unfolding round_up
round_up_lem k e h l =
    let c = double k in
    let top : 2 ^ k ≤ 2 ^ 31 = pow-le-pow_right (omega arith) {j = 31} (omega arith) in
    let mask : (2 ^ k + 2 ^ 32 - 1) % 2 ^ 32 ≡ 2 ^ k - 1 = omega arith in
    let narrow : wrap (e + (2 ^ k - 1)) ≡ e + (2 ^ k - 1) = wrap_lem _ (omega arith) in
    let x = e + (2 ^ k - 1) in
    let low = div-mul-le_self x (2 ^ k) in
    let high = lt-div-mul-add {a = x} c.1 in
    (
      x / 2 ^ k,
      rw (mask, narrow) (and_not_lem 64 k x (omega arith) (omega arith)),
      omega arith,
      omega arith,
    )

start_lem : (ph : ProgramHeader) → (first_pages ph).pages_start ≡ ph.paddr
unfolding first_pages
start_lem ph = refl

page_size_lem :
    (k : ℕ) (ph : ProgramHeader)
    → k < 32
    → ph.align ≡ 2 ^ k
    → ph.paddr < 2 ^ 32
    → ph.memsz < 2 ^ 32
    → (ph.memsz ≤ 4096 * page_size (first_pages ph))
      × (4096 * page_size (first_pages ph) < ph.memsz + 2 ^ k + 4096)
unfolding first_pages page_size
page_size_lem k ph h align start size =
    let narrow : wrap (ph.paddr + ph.memsz) ≡ ph.paddr + ph.memsz = wrap_lem _ (omega arith) in
    let (r, rounded, low, high) = round_up_lem k (ph.paddr + ph.memsz) h (omega arith) in
    let top : 2 ^ k ≤ 2 ^ 31 = pow-le-pow_right (omega arith) {j = 31} (omega arith) in
    rw (align, narrow, rounded) (omega arith, omega arith)

-- If the alignment in the first header is a power of two below 2 ^ 32, and its address and its size
-- are below 2 ^ 32, the pages that are asked for start with the segment of that header and reach to
-- its end or further, by less than one alignment and one page.
pub kernel_pages_lem :
    (buffer k : ℕ) (m : Memory) (ph : ProgramHeader)
    → header_at m (buffer + u32_in m (buffer + 28)) ≡ ph
    → k < 32
    → ph.align ≡ 2 ^ k
    → ph.paddr < 2 ^ 32
    → ph.memsz < 2 ^ 32
    → (n : ℕ) × (kernel_pages buffer m ≡ (ph.paddr, n))
      × (ph.memsz ≤ 4096 * n)
      × (4096 * n < ph.memsz + 2 ^ k + 4096)
unfolding kernel_pages
kernel_pages_lem buffer k m ph first h align start size =
    let bounds = page_size_lem k ph h align start size in
    (
      page_size (first_pages ph),
      ap (λ (q : Pages). (q.pages_start, page_size q))
            (scan_lem (u16_in m (buffer + 44)) (buffer + u32_in m (buffer + 28)) m
                (first_pages (header_at m (buffer + u32_in m (buffer + 28))))
              ∙ ap first_pages first)
          ∙ ap (λ a. (a, page_size (first_pages ph))) (start_lem ph),
      bounds.0,
      bounds.1,
    )
