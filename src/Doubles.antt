-- ===== src/Doubles.antt =====
-- The numbers of type `double` and what the programs do with them, as a parameter: the processor and
-- the mathematical library compute them. An `int` is its 32 bits; `to_int` is the conversion `(int)`
-- that the compiler has chosen, also where C leaves it undefined.
pub mod Laws
use uefi_game.Prelude.{ℕ, Bool}

pub record Doubles : Type 1 where
  pub Double : Type 0
  -- `decimal n k` is the literal for n / 10 ^ k.
  pub decimal : ℕ → ℕ → Double
  pub of_int : ℕ → Double
  pub of_unsigned : ℕ → Double
  pub to_int : Double → ℕ
  pub plus : Double → Double → Double
  pub minus : Double → Double → Double
  pub times : Double → Double → Double
  pub over : Double → Double → Double
  pub less : Double → Double → Bool
  pub equal : Double → Double → Bool
  pub floor : Double → Double
  pub sin : Double → Double
  pub cos : Double → Double
  pub negate : Double → Double
