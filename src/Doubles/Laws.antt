-- ===== src/Doubles/Laws.antt =====
-- What the IEEE 754 standard promises of the operations on `double`s, as far as the programs rely on it:
-- the results are rounded, and rounding keeps the order and whole numbers and halves of whole numbers.
use uefi_game.Prelude.{ℕ, ◌+◌, ◌^◌, ◌≤◌, ◌<◌, ◌≡◌, true, ◌||◌, ◌⊎◌}
use uefi_game.Doubles.{Doubles}

module _ (d : Doubles) where
  open d use {Double, decimal, of_int, to_int, plus, minus, times, less, equal, floor}

  -- `a <= b`, which no comparison with a NaN is.
  abbrev pub Le : Double → Double → Type 0
  Le a b = (less a b || equal a b) ≡ true

  abbrev pub naught : Double
  naught = of_int 0

  abbrev pub half : Double
  half = decimal 5 1

  -- The difference of an infinity and itself is a NaN.
  abbrev pub IsFinite : Double → Type 0
  IsFinite a = equal (minus a a) naught ≡ true

  -- From -2 to 2.
  abbrev pub IsSmall : Double → Type 0
  IsSmall a = Le (minus naught (of_int 2)) a × Le a (of_int 2)

  -- A number `a` from 1 on whose whole part is an `int`, and what two steps of the same sign do to the
  -- whole part: the longer one at most changes it by 1, and the shorter one comes between them.
  abbrev pub Rises : ℕ → ℕ → ℕ → Type 0
  Rises from short long = (from ≤ short) × (short ≤ long) × (long ≤ from + 1)

  abbrev pub Falls : ℕ → ℕ → ℕ → Type 0
  Falls from short long = (from ≤ long + 1) × (long ≤ short) × (short ≤ from)

  pub record IsRounded : Type 0 where
    -- A small number is not a NaN.
    pub total : (a : Double) → IsSmall a → Le naught a ⊎ Le a naught
    -- Products of a small number and of numbers up to a quarter.
    pub scale_up :
        (a b c : Double)
        → Le naught a
        → Le a (of_int 2)
        → Le naught b
        → Le b c
        → Le c (decimal 25 2)
        → Le naught (times a b) × Le (times a b) (times a c) × Le (times a c) half
    pub scale_down :
        (a b c : Double)
        → Le (minus naught (of_int 2)) a
        → Le a naught
        → Le naught b
        → Le b c
        → Le c (decimal 25 2)
        → Le (minus naught half) (times a c) × Le (times a c) (times a b) × Le (times a b) naught
    -- Sums and differences with numbers up to a half.
    pub plus_up :
        (a b c : Double)
        → 1 ≤ to_int a
        → to_int a + 2 < 2 ^ 31
        → Le naught b
        → Le b c
        → Le c half
        → Rises (to_int a) (to_int (plus a b)) (to_int (plus a c))
    pub plus_down :
        (a b c : Double)
        → 1 ≤ to_int a
        → to_int a + 2 < 2 ^ 31
        → Le (minus naught half) c
        → Le c b
        → Le b naught
        → Falls (to_int a) (to_int (plus a b)) (to_int (plus a c))
    pub minus_down :
        (a b c : Double)
        → 1 ≤ to_int a
        → to_int a + 2 < 2 ^ 31
        → Le naught b
        → Le b c
        → Le c half
        → Falls (to_int a) (to_int (minus a b)) (to_int (minus a c))
    pub minus_up :
        (a b c : Double)
        → 1 ≤ to_int a
        → to_int a + 2 < 2 ^ 31
        → Le (minus naught half) c
        → Le c b
        → Le b naught
        → Rises (to_int a) (to_int (minus a b)) (to_int (minus a c))
    -- The literals 0.05.
    pub literals :
        Le naught (decimal 5 2)
        × Le (decimal 5 2) (plus (decimal 5 2) (decimal 5 2))
        × Le (plus (decimal 5 2) (decimal 5 2)) (decimal 25 2)
    -- `a - floor(a)` is exact and less than 1, and so is 64 times it.
    pub fraction :
        (a : Double)
        → Le naught a
        → IsFinite a
        → to_int (times (minus a (floor a)) (of_int 64)) < 64
