-- ===== src/Prelude/Drops.antt =====
-- What stands behind an index of a buffer.
use Prim.Native.Nat.{ℕ, zero, suc, ◌+◌}
use mathlib.Core.Path.{◌≡◌, refl, ap}
use mathlib.Core.Option.{some}
use mathlib.Core.List.{List, [], ◌∷◌, ◌++◌}
use native.Mathlib.Omega.{arith}
use package.uefi_game.Prelude.Lists.{length, get_elem?, set, drop}

module _ {A : Type 0} where
  -- A buffer that goes on with `c` at index `i`.
  pub drop-cons :
      (xs : List A) (i : ℕ) {c : A} {cs : List A}
      → drop i xs ≡ c ∷ cs
      → (get_elem? xs i ≡ some c) × (drop (i + 1) xs ≡ cs)
  drop-cons [] zero e = absurd (ground arith)
  drop-cons [] (suc i) e = absurd (ground arith)
  drop-cons (x ∷ xs) zero e = (ground arith, cc)
  drop-cons (x ∷ xs) (suc i) e =
      let r = drop-cons xs i e in let o : suc i + 1 ≡ suc (i + 1) = omega arith in (r.0, rw o r.1)

  pub drop-drop : (xs : List A) (n k : ℕ) → drop (n + k) xs ≡ drop k (drop n xs)
  drop-drop xs zero k = let o : 0 + k ≡ k = omega arith in rw o
  drop-drop [] (suc n) zero = let o : suc n + 0 ≡ suc n = omega arith in rw o
  drop-drop [] (suc n) (suc k) = let o : suc n + suc k ≡ suc (n + suc k) = omega arith in rw o
  drop-drop (x ∷ xs) (suc n) k =
      let o : suc n + k ≡ suc (n + k) = omega arith in rw o (drop-drop xs n k)

  pub drop-set : (xs : List A) (n k : ℕ) (v : A) → drop n (set xs (n + k) v) ≡ set (drop n xs) k v
  drop-set xs zero k v = let o : 0 + k ≡ k = omega arith in rw o
  drop-set [] (suc n) k v = refl
  drop-set (x ∷ xs) (suc n) k v =
      let o : suc n + k ≡ suc (n + k) = omega arith in rw o (drop-set xs n k v)

  pub set-append : (xs ys : List A) (y v : A) → set (xs ++ y ∷ ys) (length xs) v ≡ xs ++ v ∷ ys
  set-append [] ys y v = refl
  set-append (x ∷ xs) ys y v = ap (◌∷◌ x) (set-append xs ys y v)

  pub drop-append : (xs ys : List A) (y : A) → drop (length xs + 1) (xs ++ y ∷ ys) ≡ ys
  drop-append [] ys y = refl
  drop-append (x ∷ xs) ys y =
      let o : suc (length xs) + 1 ≡ suc (length xs + 1) = omega arith in rw o (drop-append xs ys y)

  pub drop_tail : (xs ys : List A) → drop (length xs) (xs ++ ys) ≡ ys
  drop_tail [] ys = refl
  drop_tail (x ∷ xs) ys = drop_tail xs ys

  pub append_step : (xs : List A) (y : A) (ys : List A) → xs ++ y ∷ ys ≡ (xs ++ y ∷ []) ++ ys
  append_step [] y ys = refl
  append_step (x ∷ xs) y ys = ap (◌∷◌ x) (append_step xs y ys)
