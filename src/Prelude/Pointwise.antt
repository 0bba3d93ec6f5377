-- ===== src/Prelude/Pointwise.antt =====
-- Lists that agree at every index.
use Prim.Native.Nat.{ℕ, suc, ◌+◌, ◌<◌}
use native.Mathlib.Omega.{arith}
use mathlib.Core.Path.{◌≡◌, refl, ap}
use mathlib.Core.Option.{some}
use mathlib.Core.List.{List, [], ◌∷◌, ◌++◌}
use package.uefi_game.Prelude.Lists.{length, get_elem?, some_inj}

module _ {ℓ} {A : Type ℓ} where
  pub eq-of_get_elem? : (xs ys : List A) → ((k : ℕ) → get_elem? xs k ≡ get_elem? ys k) → xs ≡ ys
  eq-of_get_elem? [] [] h = refl
  eq-of_get_elem? [] (y ∷ ys) h = absurd (cc (h 0))
  eq-of_get_elem? (x ∷ xs) [] h = absurd (cc (h 0))
  eq-of_get_elem? (x ∷ xs) (y ∷ ys) h =
      rw (some_inj (h 0)) (ap (◌∷◌ y) (eq-of_get_elem? xs ys (λ k. h (suc k))))

  -- A list with one element more, at its end.
  pub append-of_get_elem? :
      (xs ys : List A) (a : A)
      → length ys ≡ length xs + 1
      → ((k : ℕ) → k < length xs → get_elem? ys k ≡ get_elem? xs k)
      → get_elem? ys (length xs) ≡ some a
      → ys ≡ xs ++ a ∷ []
  append-of_get_elem? [] [] a e h last = absurd (omega arith)
  append-of_get_elem? [] (y ∷ []) a e h last = ap (λ b. b ∷ []) (some_inj last)
  append-of_get_elem? [] (y ∷ z ∷ ys) a e h last = absurd (omega arith)
  append-of_get_elem? (x ∷ xs) [] a e h last = absurd (omega arith)
  append-of_get_elem? (x ∷ xs) (y ∷ ys) a e h last =
      rw (some_inj (h 0 (omega arith))) (
        ap (◌∷◌ x)
          (append-of_get_elem? xs ys a (omega arith) (λ k l. h (suc k) (omega arith)) last))
