-- ===== src/Prelude/Loops.antt =====
-- `for` loops with a body that may fault.
use Prim.Native.Nat.{ℕ, zero, suc, ◌+◌, ◌≤◌, ◌<◌}
use mathlib.Core.Path.{◌≡◌, refl, ap}
use mathlib.Core.Logic.{◌⊎◌, inl, inr}
use native.Mathlib.Decide.{ℕ_discrete}
use native.Mathlib.Omega.{arith}
use package.uefi_game.Prelude.Faults.{Result, ok, ◌>>=◌, fault, Returns, Returns-ok, Returns-bind}

-- for (k = i; k < i + n; ++k) s = body k s
unfoldable pub for_loop {ℓ} : {S : Type ℓ} → ℕ → ℕ → (ℕ → S → Result S) → S → Result S
for_loop zero i body s = ok s
for_loop (suc n) i body s = body i s >>= for_loop n (i + 1) body

module _ {ℓ κ} {S : Type ℓ} (P : ℕ → S → Type κ) (body : ℕ → S → Result S) (stop : ℕ)
    (keep : (i : ℕ) (s : S) → i < stop → P i s → Returns (P (i + 1)) (body i s)) where
  pub for_loop_inv :
      (n i : ℕ) (s : S) → i + n ≡ stop → P i s → Returns (P stop) (for_loop n i body s)
  unfolding for_loop
  for_loop_inv zero i s e h = let e' : i ≡ stop = omega arith in rw (← e') (Returns-ok h)
  for_loop_inv (suc n) i s e h =
      Returns-bind (for_loop n (i + 1) body) (keep i s (omega arith) h)
        λ s' h'. for_loop_inv n (i + 1) s' (omega arith) h'

  -- The whole loop, from 0.
  pub for_loop_from_zero : (s : S) → P 0 s → Returns (P stop) (for_loop stop 0 body s)
  for_loop_from_zero s h = for_loop_inv stop 0 s (omega arith) h

-- A loop with a round that faults in every state faults.
pub for_loop_fault {ℓ κ} :
    {S : Type ℓ} (P : S → Type κ) (body : ℕ → S → Result S)
    → ((i : ℕ) (s : S) → P s → (body i s ≡ fault) ⊎ Returns P (body i s))
    → (bad : ℕ) → ((s : S) → P s → body bad s ≡ fault)
    → (n i : ℕ) (s : S) → i ≤ bad
    → bad < i + n
    → P s
    → for_loop n i body s ≡ fault
unfolding for_loop
for_loop_fault P body keep bad faults zero i s low high h = absurd (omega arith)
for_loop_fault P body keep bad faults (suc n) i s low high h = elim (ℕ_discrete i bad) [
  | yes e ↦ rw (e, faults s h)
  | no ne ↦ elim (keep i s h) [
    | inl stops ↦ rw stops
    | inr goes ↦ rw goes.returns (
        for_loop_fault P body keep bad faults n (i + 1) goes.out (omega arith) (omega arith)
          goes.holds)
  ]
]

-- A loop whose rounds fault or keep `P` faults or keeps `P`.
pub for_loop_keeps {ℓ κ} :
    {S : Type ℓ} (P : S → Type κ) (body : ℕ → S → Result S)
    → ((i : ℕ) (s : S) → P s → (body i s ≡ fault) ⊎ Returns P (body i s))
    → (n i : ℕ) (s : S) → P s
    → (for_loop n i body s ≡ fault) ⊎ Returns P (for_loop n i body s)
unfolding for_loop
for_loop_keeps P body keep zero i s h = inr (Returns-ok h)
for_loop_keeps P body keep (suc n) i s h = elim (keep i s h) [
  | inl stops ↦ inl (rw stops)
  | inr goes ↦ rw goes.returns (for_loop_keeps P body keep n (i + 1) goes.out goes.holds)
]

-- A loop that carries a value which depends on the round alone.
pub for_loop_carry {ℓ κ} :
    {S : Type ℓ} {T : Type κ} (pack : ℕ → S → T) (body : ℕ → T → Result T) (core : ℕ → S → Result S)
    (stop : ℕ)
    → ((i : ℕ) (s : S) → i < stop → body i (pack i s) ≡ (core i s >>= λ s'. ok (pack (i + 1) s')))
    → (n i : ℕ) (s : S) → i + n ≡ stop
    → for_loop n i body (pack i s) ≡ (for_loop n i core s >>= λ s'. ok (pack stop s'))
unfolding for_loop
for_loop_carry pack body core stop same zero i s e =
    let e' : i ≡ stop = omega arith in ap (λ j. ok (pack j s)) e'
for_loop_carry pack body core stop same (suc n) i s e =
    rw (same i s (omega arith))
      (elim (core i s)
        as (λ r.
          ((r >>= λ s'. ok (pack (i + 1) s')) >>= for_loop n (i + 1) body)
          ≡ ((r >>= for_loop n (i + 1) core) >>= λ s'. ok (pack stop s'))) [
            | ok s' ↦ for_loop_carry pack body core stop same n (i + 1) s' (omega arith)
            | fault ↦ refl
          ])
