-- ===== src/Prelude/Grid.antt =====
-- Two nested `for` loops that change one cell of a buffer in each round.
use Prim.Native.Nat.{ℕ, ◌+◌, ◌*◌, ◌<◌}
use mathlib.Core.Path.{◌≡◌, refl, sym, ap, ◌∙◌}
use mathlib.Core.Option.{some}
use mathlib.Core.List.{List}
use native.Mathlib.Omega.{arith}
use package.uefi_game.Prelude.Lists.{length, get_elem?, set, some_inj, get_elem?-of_lt}
use package.uefi_game.Prelude.Faults.{Result, ok, Returns, Returns-map}
use package.uefi_game.Prelude.Loops.{for_loop, for_loop_from_zero}
use package.uefi_game.Prelude.Cells.{Touches, Touches-nothing, Touches-join, Touches-set}

abbrev pub InGrid : ℕ → ℕ → ℕ × ℕ → Type 0
InGrid rows cols p = (p.0 < rows) × (p.1 < cols)

module _ {ℓ} {A : Type ℓ} (rows cols size : ℕ) (idx : ℕ × ℕ → ℕ) (f : ℕ × ℕ → A → A)
    (body : ℕ → ℕ → List A → Result (List A))
    (inj : (p q : ℕ × ℕ) → InGrid rows cols p → InGrid rows cols q → idx p ≡ idx q → p ≡ q)
    (bound : (p : ℕ × ℕ) → InGrid rows cols p → idx p < size)
    (step : (i j : ℕ) (s : List A) (a : A)
      → i < rows
      → j < cols
      → length s ≡ size
      → get_elem? s (idx (i, j)) ≡ some a
      → body i j s ≡ ok (set s (idx (i, j)) (f (i, j) a))) where
  -- The cells of row `i` up to column `j`, and the rows up to `i`.
  abbrev InRow : ℕ → ℕ → ℕ × ℕ → Type 0
  InRow i j p = (p.0 ≡ i) × (p.1 < j)

  row_round :
      (s0 : List A)
      → length s0 ≡ size
      → (i j : ℕ) (s : List A) → i < rows
      → j < cols
      → Touches idx f (InRow i j) s0 s
      → Returns (Touches idx f (InRow i (j + 1)) s0) (body i j s)
  row_round s0 e i j s hi hj t =
      let room : idx (i, j) < length s = rw (t.size ∙ e) (bound (i, j) (hi, hj)) in
      let (a, at) = get_elem?-of_lt s (idx (i, j)) room in
      record {
        out = set s (idx (i, j)) (f (i, j) a);
        returns = step i j s a hi hj (t.size ∙ e) at;
        holds =
            Touches-join idx f {D = InRow i j} {E = λ p. p ≡ (i, j)} t
              (Touches-set idx f (i, j) s (f (i, j) a) room (λ l h. h) refl
                (λ b h. ap (f (i, j)) (some_inj (sym h ∙ at))))
              (λ k h. ground arith) (λ k h. omega arith) (λ k h. ground arith)
              (λ k l h h' same. ground (arith, inj k l));
      }

  row_lem :
      (i : ℕ) (s : List A)
      → i < rows
      → length s ≡ size
      → Returns (Touches idx f (InRow i cols) s) (for_loop cols 0 (body i) s)
  row_lem i s hi e =
      for_loop_from_zero (λ j. Touches idx f (InRow i j) s) (body i) cols
        (λ j t hj h. row_round s e i j t hi hj h) s
        (Touches-nothing idx f (λ k h. absurd (omega arith)) s)

  -- The loops end without a fault; they change each cell of the grid once, and nothing else.
  pub grid_lem :
      (s : List A)
      → length s ≡ size
      → Returns
          (Touches idx f (InGrid rows cols) s)
          (for_loop rows 0 (λ i. for_loop cols 0 (body i)) s)
  grid_lem s e =
      for_loop_from_zero (λ i. Touches idx f (InGrid i cols) s) (λ i. for_loop cols 0 (body i)) rows
        (λ i t hi h. Returns-map (row_lem i t hi (h.size ∙ e)) (λ u r.
          Touches-join idx f {D = InGrid i cols} {E = InRow i cols} h r (λ k g. omega arith)
            (λ k g. omega arith) (λ k g. omega arith) (λ k l g g' same. ground (arith, inj k l))))
        s (Touches-nothing idx f (λ k h. absurd (omega arith)) s)

-- The row-major index, and its bound.
pub row_major_lt : (rows cols : ℕ) (p : ℕ × ℕ) → InGrid rows cols p → p.0 * cols + p.1 < rows * cols
row_major_lt rows cols p h = grind arith

row_lt : (cols : ℕ) (p q : ℕ × ℕ) → p.1 < cols → p.0 < q.0 → p.0 * cols + p.1 < q.0 * cols + q.1
row_lt cols p q h l = grind arith

pub row_major_inj :
    (cols : ℕ) (p q : ℕ × ℕ) → p.1 < cols → q.1 < cols → p.0 * cols + p.1 ≡ q.0 * cols + q.1 → p ≡ q
row_major_inj cols p q hp hq e = ground (arith, row_lt cols p q, row_lt cols q p)
