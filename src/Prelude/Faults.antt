-- ===== src/Prelude/Faults.antt =====
-- What a piece of C code does: return a value, or run into undefined behaviour (an access outside
-- its buffer, through a null pointer, or a division by zero).
use Prim.Native.Nat.{ℕ, ◌≤◌, ◌<◌}
use mathlib.Core.Path.{◌≡◌, refl, ◌∙◌}
use mathlib.Core.Logic.{◌⊎◌, inl, inr}
use mathlib.Core.Option.{Option, none, some}
use mathlib.Core.List.{List}
use mathlib.Core.Bool.{Bool, false}
use native.Mathlib.Omega.{arith}
use package.uefi_game.Prelude.Tests.{ltb, if◌then◌else◌, Bool-cases, Option-cases}
use package.uefi_game.Prelude.Lists.{length, get_elem?, set, length-set}

pub data Result {ℓ} (A : Type ℓ) : Type ℓ where
  ok : A → Result A
  fault : Result A

infixl 5 ◌>>=◌
abbrev pub ◌>>=◌ {ℓ κ} : {A : Type ℓ} {B : Type κ} → Result A → (A → Result B) → Result B
ok a >>= f = f a
fault >>= f = fault

-- `ok` with a value that satisfies `P`.
pub record Returns {ℓ κ} {A : Type ℓ} (P : A → Type κ) (r : Result A) : Type (ℓ ⊔ κ) where
  pub out : A
  pub returns : r ≡ ok out
  pub holds : P out

module _ {ℓ κ} {A : Type ℓ} {P : A → Type κ} where
  pub Returns-ok : {a : A} → P a → Returns P (ok a)
  Returns-ok {a} h = record { out = a; returns = refl; holds = h }

  pub Returns-cong : {r s : Result A} → s ≡ r → Returns P r → Returns P s
  Returns-cong e h = rw e h

  -- A branch that is not taken.
  pub Returns-else :
      (b : Bool) (x : Result A) {y : Result A}
      → b ≡ false
      → Returns P y
      → Returns P (if b then x else y)
  Returns-else b x e h = rw e h

  pub Returns-bind {ℓ' κ'} :
      {B : Type ℓ'} {Q : B → Type κ'} {m : Result A} (f : A → Result B)
      → Returns P m
      → ((a : A) → P a → Returns Q (f a))
      → Returns Q (m >>= f)
  Returns-bind f h g = rw h.returns (g h.out h.holds)

  pub Returns-map {κ'} :
      {Q : A → Type κ'} {r : Result A} → Returns P r → ((a : A) → P a → Q a) → Returns Q r
  Returns-map h f = record { out = h.out; returns = h.returns; holds = f h.out h.holds }

module _ {ℓ} {A : Type ℓ} where
  abbrev pub or_fault : Option A → Result A
  or_fault (some a) = ok a
  or_fault none = fault

  -- `buf[i]`, read and written.
  abbrev pub load : List A → ℕ → Result A
  load buf i = or_fault (get_elem? buf i)

  abbrev pub store : List A → ℕ → A → Result (List A)
  store buf i v = if ltb i (length buf) then ok (set buf i v) else fault

  pub load_lem : (buf : List A) (i : ℕ) {a : A} → get_elem? buf i ≡ some a → load buf i ≡ ok a
  load_lem buf i e = rw e

  pub store_lem : (buf : List A) (i : ℕ) (v : A) → i < length buf → store buf i v ≡ ok (set buf i v)
  store_lem buf i v h = ground arith

  -- A write faults or keeps the size of its buffer.
  pub store_size :
      (buf : List A) (i : ℕ) (v : A) (n : ℕ)
      → length buf ≡ n
      → (store buf i v ≡ fault) ⊎ Returns (λ (b : List A). length b ≡ n) (store buf i v)
  store_size buf i v n e = elim (Bool-cases (ltb i (length buf))) [
    | inl room ↦
        inr (record { out = set buf i v; returns = rw room; holds = length-set buf i v ∙ e })
    | inr full ↦ inl (rw full)
  ]

  pub store_fault : (buf : List A) (i : ℕ) (v : A) → length buf ≤ i → store buf i v ≡ fault
  store_fault buf i v h = ground arith

  pub load-cases : (buf : List A) (i : ℕ) → (load buf i ≡ fault) ⊎ ((a : A) × (load buf i ≡ ok a))
  load-cases buf i = elim (Option-cases (get_elem? buf i)) [
    | inl e ↦ inl (rw e)
    | inr (a, e) ↦ inr (a, rw e)
  ]

  pub Result-cases : (r : Result A) → (r ≡ fault) ⊎ Returns (λ a. Unit {0}) r
  Result-cases (ok a) = inr (record { out = a; returns = refl; holds = tt })
  Result-cases fault = inl refl

module _ {ℓ κ ι} {A : Type ℓ} {B : Type κ} {C : Type ι} where
  pub bind_assoc :
      (r : Result A) (f : A → Result B) (g : B → Result C)
      → ((r >>= f) >>= g) ≡ (r >>= λ a. f a >>= g)
  bind_assoc (ok a) f g = refl
  bind_assoc fault f g = refl
