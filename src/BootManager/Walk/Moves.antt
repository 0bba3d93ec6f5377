-- ===== src/BootManager/Walk/Moves.antt =====
-- One pass of the loop: where each key leads.
use uefi_game.Prelude.{
  ℕ, ◌+◌, ◌-◌, ◌*◌, ◌^◌, ◌≤◌, ◌<◌, ◌≡◌, ◌≢◌, refl, ◌⊎◌, inl, inr, arith, Bool, true, false, not,
  ◌&&◌, Bool-cases, if◌then◌else◌, ◌==◌, ltb, wrap, wrap_lem, Option, some, none, ok, length,
  get_elem?, get_elem?-of_lt, row_major_lt, Returns, Returns-ok,
}
use uefi_game.BootManager.Walk.{
  ScanCode, up, down, left, right, esc, other, Walk, Look, Maze, last, try_cell, look,
}

abbrev pub Pos : Type 0
Pos = ℕ × ℕ

abbrev pub pos : Walk → Pos
pos g = (g.cur_x, g.cur_y)

pub record IsValid (maze : Maze) : Type 0 where
  pub size : length maze.map ≡ maze.map_height * maze.map_width
  pub small : maze.map_height * maze.map_width < 2 ^ 64
  pub wide : maze.map_width < 2 ^ 64
  pub tall : maze.map_height < 2 ^ 64
  pub textured : 0 < maze.bootable_start

abbrev pub is_esc : ScanCode → Bool
is_esc esc = true
is_esc _ = false

module _ (maze : Maze) where
  open maze use {map_width as w, map_height as h, bootable_start as start}

  abbrev pub Inside : Pos → Type 0
  Inside p = (p.0 < w) × (p.1 < h)

  abbrev pub Holds : Pos → ℕ → Type 0
  Holds p v = get_elem? maze.map (p.1 * w + p.0) ≡ some v

  -- The neighbour that a key points to, if the maze has one there.
  abbrev pub toward : ScanCode → Pos → Option Pos
  toward up p = if p.1 == 0 then none else some (p.0, p.1 - 1)
  toward down p = if ltb (p.1 + 1) h then some (p.0, p.1 + 1) else none
  toward left p = if p.0 == 0 then none else some (p.0 - 1, p.1)
  toward right p = if ltb (p.0 + 1) w then some (p.0 + 1, p.1) else none
  toward _ p = none

  pub toward-Inside : (code : ScanCode) (p q : Pos) → Inside p → toward code p ≡ some q → Inside q
  toward-Inside up p q i e = ground arith
  toward-Inside down p q i e = ground arith
  toward-Inside left p q i e = ground arith
  toward-Inside right p q i e = ground arith
  toward-Inside _ p q i e = ground arith

  pub data Looked (code : ScanCode) (stale : ℕ) (p : Pos) (l : Look) : Type 0 where
    stays :
        toward code p ≡ none
        → l ≡ record { new_x = p.0; new_y = p.1; map_value = stale; leaves = is_esc code }
        → Looked code stale p l
    blocked :
        (q : Pos) (v : ℕ)
        → toward code p ≡ some q
        → Holds q v
        → v ≢ 0
        → v < start
        → l ≡ record { new_x = p.0; new_y = p.1; map_value = v; leaves = false }
        → Looked code stale p l
    moves :
        (q : Pos) (v : ℕ)
        → toward code p ≡ some q
        → Holds q v
        → (v ≡ 0) ⊎ (start ≤ v)
        → l ≡ record { new_x = q.0; new_y = q.1; map_value = v; leaves = false }
        → Looked code stale p l

  module _ (valid : IsValid maze) where
    last_lem : (n : ℕ) → 0 < n → n < 2 ^ 64 → last n ≡ n - 1
    unfolding wrap
    last_lem n some_n small = omega arith

    pub value_at : (q : Pos) → Inside q → (v : ℕ) × Holds q v
    value_at q i =
        get_elem?-of_lt maze.map (q.1 * w + q.0)
          (rw valid.size (row_major_lt h w (q.1, q.0) (i.1, i.0)))

    pub narrow : (q : Pos) → Inside q → wrap (q.1 * w + q.0) ≡ q.1 * w + q.0
    narrow q i =
        let l = row_major_lt h w (q.1, q.0) (i.1, i.0) in wrap_lem _ (omega (arith, l, valid.small))

    try_cell_lem :
        (code : ScanCode) (stale at : ℕ) (p q : Pos)
        → Inside q
        → at ≡ q.1 * w + q.0
        → toward code p ≡ some q
        → Returns (Looked code stale p) (try_cell maze at p.0 p.1 q.0 q.1)
    unfolding try_cell
    try_cell_lem code stale at p q i e to =
        let (v, here) = value_at q i in
        elim (Bool-cases (not (v == 0) && ltb v start)) [
          | inl stop ↦ record {
            out = record { new_x = p.0; new_y = p.1; map_value = v; leaves = false };
            returns = rw (e, narrow q i, here, stop);
            holds = blocked q v to here (ground arith) (ground arith) refl;
          }
          | inr free ↦ record {
            out = record { new_x = q.0; new_y = q.1; map_value = v; leaves = false };
            returns = rw (e, narrow q i, here, free);
            holds = moves q v to here (ground arith) refl;
          }
        ]

    -- With no neighbour there, the pass goes by the stale value.
    stay_lem :
        (code : ScanCode) (stale : ℕ) (p : Pos)
        → toward code p ≡ none
        → Returns
            (Looked code stale p)
            (ok (record { new_x = p.0; new_y = p.1; map_value = stale; leaves = is_esc code }))
    stay_lem code stale p e = Returns-ok (stays e refl)

    pub look_lem :
        (code : ScanCode) (stale : ℕ) (p : Pos)
        → Inside p
        → Returns (Looked code stale p) (look maze code stale p.0 p.1)
    unfolding look
    look_lem up stale p i = elim (Bool-cases (p.1 == 0)) [
      | inl edge ↦ rw edge (stay_lem up stale p (rw edge))
      | inr on ↦ rw on (try_cell_lem up stale _ p (p.0, p.1 - 1) (i.0, omega arith) refl (rw on))
    ]
    look_lem down stale p i =
        let e = last_lem h (omega arith) valid.tall in
        elim (Bool-cases (p.1 == h - 1)) [
          | inl edge ↦ rw (e, edge) (stay_lem down stale p (ground arith))
          | inr on ↦
              rw (e, on)
                (try_cell_lem down stale _ p (p.0, p.1 + 1) (i.0, ground arith) refl (ground arith))
        ]
    look_lem left stale p i = elim (Bool-cases (p.0 == 0)) [
      | inl edge ↦ rw edge (stay_lem left stale p (rw edge))
      | inr on ↦
          rw on
            (try_cell_lem left stale _ p (p.0 - 1, p.1) (omega arith, i.1) (ground arith) (rw on))
    ]
    look_lem right stale p i =
        let e = last_lem w (omega arith) valid.wide in
        elim (Bool-cases (p.0 == w - 1)) [
          | inl edge ↦ rw (e, edge) (stay_lem right stale p (ground arith))
          | inr on ↦
              rw (e, on)
                (try_cell_lem right stale _ p (p.0 + 1, p.1) (ground arith, i.1) (omega arith)
                  (ground arith))
        ]
    look_lem esc stale p i = stay_lem esc stale p refl
    look_lem other stale p i = stay_lem other stale p refl
