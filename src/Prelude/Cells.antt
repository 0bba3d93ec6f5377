-- ===== src/Prelude/Cells.antt =====
-- What a loop nest does to a buffer: each cell with a key in `D` is changed by its `f`, once, and
-- no other.
use Prim.Native.Nat.{ℕ, ◌<◌}
use mathlib.Core.Path.{◌≡◌, refl, sym, ap, ◌∙◌}
use mathlib.Core.Logic.{◌≢◌, ◌⊎◌, inl, inr}
use mathlib.Core.Option.{some}
use mathlib.Core.List.{List}
use package.uefi_game.Prelude.Lists.{
  length, get_elem?, set, length-set, get_elem?-set_self, get_elem?-set_ne,
}

module _ {ℓ} {K : Type 0} {A : Type ℓ} (idx : K → ℕ) (f : K → A → A) where
  pub record Touches (D : K → Type 0) (s s' : List A) : Type ℓ where
    pub size : length s' ≡ length s
    pub inside :
        (k : K) (a : A) → D k → get_elem? s (idx k) ≡ some a → get_elem? s' (idx k) ≡ some (f k a)
    pub outside : (j : ℕ) → ((k : K) → D k → idx k ≢ j) → get_elem? s' j ≡ get_elem? s j

  pub Touches-nothing : {D : K → Type 0} → ((k : K) → ¬ D k) → (s : List A) → Touches D s s
  Touches-nothing nobody s = record {
    size = refl;
    inside = λ k a d e. absurd (nobody k d);
    outside = λ j h. refl;
  }

  pub Touches-same :
      {D E : K → Type 0} {s t : List A}
      → Touches D s t
      → ((k : K) → E k → D k)
      → ((k : K) → D k → E k)
      → Touches E s t
  Touches-same p back forth = record {
    size = p.size;
    inside = λ k a d e. p.inside k a (back k d) e;
    outside = λ j h. p.outside j (λ k d. h k (forth k d));
  }

  pub Touches-join :
      {D E F : K → Type 0} {s t u : List A}
      → Touches D s t
      → Touches E t u
      → ((k : K) → F k → D k ⊎ E k)
      → ((k : K) → D k → F k)
      → ((k : K) → E k → F k)
      → ((k l : K) → D k → E l → idx k ≢ idx l)
      → Touches F s u
  Touches-join {D} {E} {F} {s} {t} {u} p q split left right apart = record {
    size = q.size ∙ p.size;
    inside = λ k a d e. elim (split k d) [
      | inl x ↦ q.outside (idx k) (λ l y c. apart k l x y (sym c)) ∙ p.inside k a x e
      | inr y ↦ q.inside k a y (p.outside (idx k) (λ l x. apart l k x y) ∙ e)
    ];
    outside = λ j h. q.outside j (λ k y. h k (right k y)) ∙ p.outside j (λ k x. h k (left k x));
  }

  -- One write, `buf[idx k] = v`.
  pub Touches-set :
      {D : K → Type 0} (k : K) (s : List A) (v : A)
      → idx k < length s
      → ((l : K) → D l → l ≡ k)
      → D k
      → ((a : A) → get_elem? s (idx k) ≡ some a → f k a ≡ v)
      → Touches D s (set s (idx k) v)
  Touches-set k s v h only d e = record {
    size = length-set s (idx k) v;
    inside = λ l a x g.
        rw (only l x) (get_elem?-set_self s (idx k) v h ∙ ap some (sym (e a (rw (only l x) at g))));
    outside = λ j away. get_elem?-set_ne s (idx k) j v (λ c. away k d (sym c));
  }
