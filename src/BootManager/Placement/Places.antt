-- ===== src/BootManager/Placement/Places.antt =====
-- All passes: every boot entry gets an escape of its own.
use uefi_game.Prelude.{
  ℕ, ◌+◌, ◌-◌, ◌*◌, ◌%◌, ◌^◌, ◌≤◌, ◌<◌, ◌≡◌, ◌≢◌, refl, sym, ap, ◌∙◌, ◌⊎◌, inl, inr, arith, true,
  false, ◌==◌, List, some, some_inj, Result, fault, length, get_elem?, set, length-set,
  get_elem?-set_self, get_elem?-set_ne, get_elem?-set_cases, get_elem?-of_lt, lt-of_get_elem?,
  ℕ_discrete, Returns, for_loop_from_zero, for_loop_fault, Result-cases,
}
use uefi_game.BootManager.Placement.{
  Textures, Placing, escapes, is_escape, pick, place_entry, place_boot_entries,
}
use uefi_game.BootManager.Placement.Count.{escapes_in, escapes_in-set}
use uefi_game.BootManager.Placement.Sweep.{Taken, sweep_lem}

pick_lem : (random i : ℕ) → i < escapes → Returns (λ r. r < escapes - i) (pick random i)
unfolding pick
pick_lem random i h =
    let left : (escapes + 2 ^ 64 - i) % 2 ^ 64 ≡ escapes - i = omega arith in
    let some_left : (escapes - i == 0) ≡ false = ground arith in
    record { out = random % (escapes - i); returns = rw (left, some_left); holds = grind arith }

module _ {E I : Type 0} (make : E → ℕ → Textures I → Result (Textures I)) (rand : ℕ → ℕ) (w h : ℕ)
    (entries : List E) (Good : Textures I → Type 0) (start : ℕ)
    (makes : (j : ℕ) (e : E) (c : ℕ) (t : Textures I)
      → get_elem? entries j ≡ some e
      → is_escape start c ≡ true
      → Good t
      → t.count < 2 ^ 60
      → Returns (λ (t' : Textures I). Good t' × (t'.count ≡ t.count + 1)) (make e c t))
    (map0 : List ℕ) where
  -- The first `n` entries are placed: entry `j` at one cell, which was an escape, with the value
  -- `start + j`; every other cell has its old value.
  pub record Placed (n : ℕ) (p : Placing I) : Type 0 where
    pub size : length p.map ≡ h * w
    pub good : Good p.textures
    pub count : p.textures.count ≡ start + n
    pub left : escapes_in start w p.map h w + n ≡ escapes
    pub below : (k c : ℕ) → get_elem? p.map k ≡ some c → c < start + n
    pub kept : (k c : ℕ) → get_elem? p.map k ≡ some c → c < start → get_elem? map0 k ≡ some c
    pub placed :
        (j : ℕ)
        → j < n
        → (k c : ℕ) × (get_elem? p.map k ≡ some (start + j))
          × (get_elem? map0 k ≡ some c)
          × (is_escape start c ≡ true)
    pub once :
        (k l c : ℕ) → get_elem? p.map k ≡ some c → get_elem? p.map l ≡ some c → start ≤ c → k ≡ l

  -- One more escape taken.
  module _ (i : ℕ) (p : Placing I) (q : Placing I) (a : Placed i p) (r : ℕ) (entry : E)
      (good : Good p.textures) (at : get_elem? entries i ≡ some entry) (size : length p.map ≡ h * w)
      (small : h * w < 2 ^ 64) (few : p.textures.count < 2 ^ 60)
      (t : Taken make rand w h entries Good start makes p i entry r good at size small few q) where
    abbrev k0 : ℕ
    k0 = t.y * w + t.x

    cells :
        (k c : ℕ)
        → get_elem? q.map k ≡ some c
        → ((k ≡ k0) × (c ≡ start + i)) ⊎ ((k ≢ k0) × (get_elem? p.map k ≡ some c))
    cells k c e =
        let e' : get_elem? (set p.map k0 (start + i)) k ≡ some c =
          rw (← a.count) (rw (← t.written) e) in
        get_elem?-set_cases p.map k0 k (start + i) e'

    new_cell : get_elem? q.map k0 ≡ some (start + i)
    new_cell =
        rw (t.written, a.count)
          (get_elem?-set_self p.map k0 (start + i) (lt-of_get_elem? p.map k0 t.was))

    old_cell : (k : ℕ) → k ≢ k0 → get_elem? q.map k ≡ get_elem? p.map k
    old_cell k ne = rw t.written (get_elem?-set_ne p.map k0 k p.textures.count ne)

    is_old : t.c < start
    is_old = let e = t.escape in unfold is_escape in ground arith

    fewer : escapes_in start w q.map h w + 1 ≡ escapes_in start w p.map h w
    fewer = rw t.written (
        escapes_in-set start w p.map t.x t.y t.c p.textures.count t.in_row t.was t.escape
          (let e = a.count in unfold is_escape in ground arith) h w (omega arith) t.in_row t.in_col)

    placed_next :
        (j : ℕ)
        → j < i + 1
        → (k c : ℕ) × (get_elem? q.map k ≡ some (start + j))
          × (get_elem? map0 k ≡ some c)
          × (is_escape start c ≡ true)
    placed_next j l = elim (ℕ_discrete j i) [
      | yes e ↦ (k0, t.c, rw e new_cell, a.kept k0 t.c t.was is_old, t.escape)
      | no ne ↦
          let (k, c, now, old, was) = a.placed j (omega arith) in
          let apart : k ≢ k0 = λ e.
            absurd (omega (arith, some_inj (sym now ∙ ap (get_elem? p.map) e ∙ t.was), is_old)) in
          (k, c, old_cell k apart ∙ now, old, was)
    ]

    Placed-next : Placed (i + 1) q
    Placed-next = record {
      size = rw t.written (length-set p.map k0 p.textures.count ∙ size);
      good = t.good;
      count = omega (arith, t.count, a.count);
      left = omega (arith, a.left, fewer);
      below = λ k c e. elim (cells k c e) [
        | inl (_, f) ↦ omega arith
        | inr (_, f) ↦ omega (arith, a.below k c f)
      ];
      kept = λ k c e l. elim (cells k c e) [
        | inl (_, f) ↦ absurd (omega arith)
        | inr (_, f) ↦ a.kept k c f l
      ];
      placed = placed_next;
      once = λ k l c e f le. elim (cells k c e) [
        | inl (here, v) ↦ elim (cells l c f) [
          | inl (there, _) ↦ here ∙ sym there
          | inr (_, g) ↦ absurd (omega (arith, a.below l c g))
        ]
        | inr (_, g) ↦ elim (cells l c f) [
          | inl (_, v) ↦ absurd (omega (arith, a.below k c g))
          | inr (_, g') ↦ a.once k l c g g' le
        ]
      ];
    }

  place_round :
      (i : ℕ) (p : Placing I)
      → i < escapes
      → i < length entries
      → h * w < 2 ^ 64
      → start < 2 ^ 59
      → Placed i p
      → Returns (Placed (i + 1)) (place_entry make rand w h entries start i p)
  unfolding place_entry
  place_round i p few some_entry small low a =
      let room : p.textures.count < 2 ^ 60 = omega (arith, a.count) in
      let (entry, at) = get_elem?-of_lt entries i some_entry in
      let r = pick_lem (rand i) i few in
      let t =
        sweep_lem make rand w h entries Good start makes p i entry r.out a.good at a.size small room
          (omega (arith, r.holds, a.left)) in
      record {
        out = t.out;
        returns = rw (r.returns) t.returns;
        holds = Placed-next i p t.out a r.out entry a.good at a.size small room t.holds;
      }

  -- On a map with exactly twelve escapes, each below the first boot texture like every other cell,
  -- and for at most twelve boot entries, the placement ends without a fault: each entry has exactly
  -- one cell, which was an escape, and every other cell keeps its value.
  pub place_boot_entries_lem :
      (n : ℕ) (textures : Textures I)
      → Good textures
      → textures.count ≡ start
      → length map0 ≡ h * w
      → h * w < 2 ^ 64
      → start < 2 ^ 59
      → ((k c : ℕ) → get_elem? map0 k ≡ some c → c < start)
      → escapes_in start w map0 h w ≡ escapes
      → n ≤ escapes
      → n ≤ length entries
      → Returns (Placed n) (place_boot_entries make rand w h entries n map0 textures)
  unfolding place_boot_entries
  place_boot_entries_lem n textures good count size small low fresh twelve few some_entries =
      simp count (
        for_loop_from_zero Placed (place_entry make rand w h entries start) n
          (λ i p l a. place_round i p (omega arith) (omega arith) small low a)
          (record { map = map0; textures = textures; escape_count = 0 })
          (record {
            size = size;
            good = good;
            count = omega (arith, count);
            left = omega (arith, twelve);
            below = λ k c e. omega (arith, fresh k c e);
            kept = λ k c e l. e;
            placed = λ j l. absurd (omega arith);
            once = λ k l c e f le. absurd (omega (arith, fresh k c e));
          }))

-- With more than twelve boot entries the placement faults, whatever the map: it divides by zero.
pub place_boot_entries_fault :
    {E I : Type 0} (make : E → ℕ → Textures I → Result (Textures I)) (rand : ℕ → ℕ) (w h : ℕ)
    (entries : List E) (n : ℕ) (map : List ℕ) (textures : Textures I)
    → escapes < n
    → place_boot_entries make rand w h entries n map textures ≡ fault
unfolding place_boot_entries
place_boot_entries_fault make rand w h entries n map textures many =
    for_loop_fault (λ p. Unit {0}) (place_entry make rand w h entries textures.count)
      (λ i p u. Result-cases _) escapes (λ p u. unfold place_entry in refl) n 0 _ (omega arith)
      (omega arith) tt
