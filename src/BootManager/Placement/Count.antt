-- ===== src/BootManager/Placement/Count.antt =====
-- How many escapes a map has, column by column as the code looks for them.
use uefi_game.Prelude.{
  ℕ, zero, suc, ◌+◌, ◌*◌, ◌≤◌, ◌<◌, ◌≡◌, ◌≢◌, refl, ap, arith, true, false, if◌then◌else◌, List,
  Option, some, none, get_elem?, set, get_elem?-set_self, get_elem?-set_ne, lt-of_get_elem?,
  row_major_inj, ℕ_discrete,
}
use mathlib.Core.Path.{ap₂}
use uefi_game.BootManager.Placement.{is_escape}

module _ (start w : ℕ) where
  abbrev pub one : Option ℕ → ℕ
  one none = 0
  one (some c) = if is_escape start c then 1 else 0

  -- Column `x`, its first `n` rows.
  abbrev pub escapes_col : List ℕ → ℕ → ℕ → ℕ
  escapes_col m x zero = 0
  escapes_col m x (suc n) = escapes_col m x n + one (get_elem? m (n * w + x))

  -- The first `n` columns, each of `h` rows.
  abbrev pub escapes_in : List ℕ → ℕ → ℕ → ℕ
  escapes_in m h zero = 0
  escapes_in m h (suc n) = escapes_in m h n + escapes_col m n h

  module _ (m : List ℕ) (x0 y0 c v : ℕ) (hx : x0 < w) (at : get_elem? m (y0 * w + x0) ≡ some c)
      (old : is_escape start c ≡ true) (new : is_escape start v ≡ false) where
    abbrev m' : List ℕ
    m' = set m (y0 * w + x0) v

    other_cell :
        (x y : ℕ)
        → x < w
        → ¬ ((y ≡ y0) × (x ≡ x0))
        → get_elem? m' (y * w + x) ≡ get_elem? m (y * w + x)
    other_cell x y h ne =
        get_elem?-set_ne m (y0 * w + x0) (y * w + x) v
          (λ e. ground (arith, row_major_inj w (y, x) (y0, x0) h hx e, ne))

    same_cell : get_elem? m' (y0 * w + x0) ≡ some v
    same_cell = get_elem?-set_self m (y0 * w + x0) v (lt-of_get_elem? m _ at)

    col_other : (x n : ℕ) → x < w → x ≢ x0 → escapes_col m' x n ≡ escapes_col m x n
    col_other x zero h ne = refl
    col_other x (suc n) h ne =
        ap₂ (λ (a b : ℕ). a + b) (col_other x n h ne) (ap one (other_cell x n h (λ e. ne e.1)))

    col_short : (n : ℕ) → n ≤ y0 → escapes_col m' x0 n ≡ escapes_col m x0 n
    col_short zero h = refl
    col_short (suc n) h =
        ap₂ (λ (a b : ℕ). a + b) (col_short n (omega arith))
          (ap one (other_cell x0 n hx (λ e. absurd (omega (arith, e.0)))))

    col_same : (n : ℕ) → y0 < n → escapes_col m' x0 n + 1 ≡ escapes_col m x0 n
    col_same zero h = absurd (omega arith)
    col_same (suc n) h = elim (ℕ_discrete n y0) [
      | yes e ↦ rw (e, same_cell, at, old, new, col_short y0 (omega arith)) (omega arith)
      | no ne ↦ omega (arith, col_same n (omega arith), ap one (other_cell x0 n hx (λ e. ne e.0)))
    ]

    in_short : (h n : ℕ) → n ≤ x0 → escapes_in m' h n ≡ escapes_in m h n
    in_short h zero l = refl
    in_short h (suc n) l =
        ap₂ (λ (a b : ℕ). a + b) (in_short h n (omega arith))
          (col_other n h (omega arith) (λ e. absurd (omega arith)))

    -- Writing what is no escape over one that is takes one away.
    pub escapes_in-set :
        (h n : ℕ) → n ≤ w → x0 < n → y0 < h → escapes_in m' h n + 1 ≡ escapes_in m h n
    escapes_in-set h zero le l hy = absurd (omega arith)
    escapes_in-set h (suc n) le l hy = elim (ℕ_discrete n x0) [
      | yes e ↦ rw e (omega (arith, in_short h x0 (omega arith), col_same h hy))
      | no ne ↦
          omega (
            arith,
            escapes_in-set h n (omega arith) (omega arith) hy,
            col_other n h (omega arith) ne,
          )
    ]
