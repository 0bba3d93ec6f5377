-- ===== src/Tests/Views.antt =====
-- Application/BootManager3D in a map of four columns and nineteen rows, with doubles that are
-- hundredths and a player who always looks to the right.
use uefi_game.Prelude.{
  ◌++◌, [], ◌∷◌, zero, suc, ℕ, ◌+◌, ◌-◌, ◌*◌, ◌/◌, ◌^◌, ◌≤◌, ◌<◌, ◌≡◌, refl, sym, ◌∙◌, ◌≢◌, ◌⊎◌,
  inl, inr, some, List, true, ◌||◌, arith, ltb, ◌==◌, length, replicate, get_elem?, set, some_inj,
  length-replicate, get_elem?-replicate, lt-of_get_elem?, get_elem?-set_ne, get_elem?-set_cases,
}
use native.Mathlib.Nat.{mul-le-mul_left}
use uefi_game.Doubles.{Doubles}
use uefi_game.Doubles.Laws.{IsRounded}
use uefi_game.Pixels.{Pixel, zero_pixel}
use uefi_game.BootManager3D.View.{View, Level}
use uefi_game.BootManager3D.Floor.Halves.{HasImages, screen_size}
use uefi_game.BootManager3D.Rays.{Ray}
use uefi_game.BootManager3D.Rays.Ends.{IsWalled}
use uefi_game.BootManager3D.Walls.{wall_at}
use uefi_game.BootManager3D.Walls.Columns.{IsTextured, EndsOnMap}
use uefi_game.BootManager3D.Game.{first_view, turn}
use uefi_game.BootManager3D.Game.Moves.{IsSteady}

abbrev pub hundredths : Doubles
hundredths = record {
  Double = ℕ;
  decimal = λ n k. n * 100 / 10 ^ k;
  of_int = λ n. n * 100;
  of_unsigned = λ n. n * 100;
  to_int = λ a. a / 100;
  plus = λ a b. a + b;
  minus = λ a b. a - b;
  times = λ a b. a * b / 100;
  over = λ a b. a * 100 / b;
  less = ltb;
  equal = λ a b. a == b;
  floor = λ a. a / 100 * 100;
  sin = λ a. 0;
  cos = λ a. 100;
  negate = λ a. a;
}

-- A free cell and one that boots the first entry, among walls.
abbrev pub cells : List ℕ
cells = set (set (replicate 76 2) 69 0) 70 3

abbrev pub corridor : Level
corridor = record { map = cells; map_width = 4; bootable_start = 3 }

pub replicate_at {ℓ} :
    {A : Type ℓ} (n : ℕ) (a : A) (k : ℕ) {v : A}
    → get_elem? (replicate n a) k ≡ some v
    → (k < n) × (v ≡ a)
replicate_at n a k g =
    let h = lt-of_get_elem? (replicate n a) k g in
    let low : k < n = omega (arith, h, length-replicate n a) in
    (low, some_inj (sym g ∙ get_elem?-replicate n k a low))

pub append-cases :
    (xs ys : List ℕ) (k v : ℕ)
    → get_elem? (xs ++ ys) k ≡ some v
    → (get_elem? xs k ≡ some v) ⊎ (length xs ≤ k) × (get_elem? ys (k - length xs) ≡ some v)
append-cases [] ys k v e =
    let all : k - length {A = ℕ} [] ≡ k = omega arith in inr (omega arith, rw all e)
append-cases (x ∷ xs) ys zero v e = inl e
append-cases (x ∷ xs) ys (suc k) v e = elim (append-cases xs ys k v e) [
  | inl h ↦ inl h
  | inr (le, h) ↦
      let one : suc k - length (x ∷ xs) ≡ k - length xs = omega arith in inr (omega arith, rw one h)
]

value-of :
    (k v : ℕ)
    → get_elem? cells k ≡ some v
    → (k ≡ 70) × (v ≡ 3) ⊎ (k ≡ 69) × (v ≡ 0) ⊎ (k ≢ 69) × (k ≢ 70) × (v ≡ 2)
value-of k v e = elim (get_elem?-set_cases (set (replicate 76 2) 69 0) 70 k 3 e) [
  | inl h ↦ inl h
  | inr (ne, f) ↦ elim (get_elem?-set_cases (replicate 76 2) 69 k 0 f) [
    | inl h ↦ inr (inl h)
    | inr (ne', g) ↦ inr (inr (ne', ne, (replicate_at 76 2 k g).1))
  ]
]

wall_there : (k : ℕ) → k < 76 → k ≢ 69 → k ≢ 70 → get_elem? cells k ≡ some 2
wall_there k h a b =
    get_elem?-set_ne (set (replicate 76 2) 69 0) 70 k 3 b
    ∙ get_elem?-set_ne (replicate 76 2) 69 k 0 a
    ∙ get_elem?-replicate 76 k 2 h

pub corridor-IsWalled : IsWalled corridor 19
corridor-IsWalled = record {
  size = refl;
  wide = omega arith;
  high = omega arith;
  walls =
      λ y x hy hx edge. (2, wall_there (y * 4 + x) (omega arith) (omega arith) (omega arith), refl);
}

abbrev pub images : List (List Pixel)
images = replicate 4 (replicate 4096 zero_pixel)

image_there : (k : ℕ) → k < 4 → get_elem? images k ≡ some (replicate 4096 zero_pixel)
image_there k h = get_elem?-replicate 4 k (replicate 4096 zero_pixel) h

full : 4096 ≤ length (replicate 4096 zero_pixel)
full = omega (arith, length-replicate 4096 zero_pixel)

pub corridor-IsTextured : IsTextured corridor images
corridor-IsTextured k v e p =
    let c = value-of k v e in
    (omega arith, (replicate 4096 zero_pixel, image_there v (omega arith), full))

pub images-HasImages : HasImages images
images-HasImages = record {
  floor = replicate 4096 zero_pixel;
  ceiling = replicate 4096 zero_pixel;
  floor_there = image_there 0 (omega arith);
  ceiling_there = image_there 1 (omega arith);
  floor_full = full;
  ceiling_full = full;
}

-- An order test on hundredths is an order.
le-of : (a b : ℕ) → (ltb a b || a == b) ≡ true → a ≤ b
le-of a b e = ground arith

of-le : (a b : ℕ) → a ≤ b → (ltb a b || a == b) ≡ true
of-le a b h = ground arith

scaled : (a b c : ℕ) → a ≤ 200 → b ≤ c → c ≤ 25 → (a * b / 100 ≤ a * c / 100) × (a * c / 100 ≤ 50)
scaled a b c small le few =
    (omega (arith, mul-le-mul_left a le), omega (arith, mul-le-mul_left a few))

pub hundredths-IsRounded : IsRounded hundredths
hundredths-IsRounded = record {
  total = λ a s. inl (of-le 0 a (omega arith));
  scale_up = λ a b c p q r s t.
      let h = scaled a b c (le-of a 200 q) (le-of b c s) (le-of c 25 t) in
      (
        of-le 0 (a * b / 100) (omega arith),
        of-le (a * b / 100) (a * c / 100) h.0,
        of-le (a * c / 100) 50 h.1,
      );
  scale_down = λ a b c p q r s t.
      let z : a ≡ 0 = omega (arith, le-of a 0 q) in
      let n : (e : ℕ) → a * e / 100 ≡ 0 = λ e. rw z (omega arith) in
      let nb = n b in
      let nc = n c in
      (
        of-le 0 (a * c / 100) (omega arith),
        of-le (a * c / 100) (a * b / 100) (omega arith),
        of-le (a * b / 100) 0 (omega arith),
      );
  plus_up = λ a b c low high p q r.
      let e = le-of b c q in let f = le-of c 50 r in (omega arith, omega arith, omega arith);
  plus_down = λ a b c low high p q r.
      let e = le-of c b q in let f = le-of b 0 r in (omega arith, omega arith, omega arith);
  minus_down = λ a b c low high p q r.
      let e = le-of b c q in let f = le-of c 50 r in (omega arith, omega arith, omega arith);
  minus_up = λ a b c low high p q r.
      let e = le-of c b q in let f = le-of b 0 r in (omega arith, omega arith, omega arith);
  literals = (refl, refl, refl);
  fraction = λ a p q. omega arith;
}

pub every-EndsOnMap : (v : View hundredths) (r : Ray hundredths) → EndsOnMap hundredths v r
every-EndsOnMap v r =
    let at = wall_at hundredths v r in
    let none_left : (at - at == 0) ≡ true = ground arith in (of-le 0 at (omega arith), none_left)

-- A view to the right.
abbrev pub Rightward : View hundredths → Type 0
Rightward v = (v.dir_x ≡ 100) × (v.dir_y ≡ 0)

turned : (a : ℕ) (v : View hundredths) → Rightward v → Rightward (turn hundredths a v)
unfolding turn
turned a v h = (omega (arith, h.0), omega (arith, h.1))

pub rightward-IsSteady :
    (level : Level) (height : ℕ) (walled : IsWalled level height) (fuel : ℕ)
    → IsSteady level height walled hundredths fuel Rightward
unfolding first_view
rightward-IsSteady level height walled fuel = record {
  rounded = hundredths-IsRounded;
  first = (refl, refl);
  turns = λ v h. (turned 10 v h, turned 10 v h);
  moves = λ v y x h. h;
  small = λ v h. (rw (h.1) (refl, refl), rw (h.0) (refl, refl));
  hits = λ v h i x r hx e. every-EndsOnMap v r;
}

pub screen_there : length (replicate screen_size zero_pixel) ≡ screen_size
screen_there = length-replicate screen_size zero_pixel
