-- ===== src/Int32.antt =====
-- Signed integers of 32 bits, kept as their bits: `INT32` and `int`.
use uefi_game.Prelude.{ℕ, ◌-◌, ◌/◌, ◌^◌, ◌<◌, ◌≡◌, Bool, arith, leb, if◌then◌else◌, wrap}

abbrev pub is_negative : ℕ → Bool
is_negative n = leb (2 ^ 31) n

abbrev pub magnitude : ℕ → ℕ
magnitude n = if is_negative n then 2 ^ 32 - n else n

-- An `INT32` as a `UINTN`.
unfoldable pub extend : ℕ → ℕ
unfolding wrap
extend n = if is_negative n then wrap (2 ^ 64 - magnitude n) else n

-- `n / 2` of an `INT32`, as a `UINTN`.
unfoldable pub half : ℕ → ℕ
unfolding wrap
half n = if is_negative n then wrap (2 ^ 64 - magnitude n / 2) else n / 2

pub extend_lem : (n : ℕ) → n < 2 ^ 31 → extend n ≡ n
unfolding extend
extend_lem n h = ground arith

pub half_lem : (n : ℕ) → n < 2 ^ 31 → half n ≡ n / 2
unfolding half
half_lem n h = ground arith
