-- ===== src/Maze/Walk/Ways.antt =====
-- Every end that free cells lead to can be reached.
use uefi_game.Prelude.{
  ℕ, ◌≡◌, refl, sym, ap, ◌∙◌, ◌⊎◌, inl, inr, true, false, ◌&&◌, ◌||◌, List, [], ◌∷◌, ◌++◌, ◌==◌,
  Bool-cases, eq→==, Result, ok, ◌>>=◌, Returns, Returns-ok, Returns-cong, bind_assoc,
}
use mathlib.Core.Path.{subst, fun_ext}
use uefi_game.Pixels.{Pixel}
use uefi_game.Console.{ScanCode, other}
use uefi_game.Maze.Level.{Maze}
use uefi_game.Maze.Picture.{Geometry}
use uefi_game.Maze.Walk.{KeyPress, Walk, Look, go, look, pass, step, walk_loop}
use uefi_game.Maze.Walk.Session.{
  Pos, pos, Inside, IsClosed, FreePath, here, next, look-Free, path-Inside,
}

module _ (maze : Maze) (g : Geometry) (empty_cell actor : List Pixel) (end : Pos) where
  abbrev walk : List KeyPress → Walk → Result Walk
  walk = walk_loop maze g empty_cell actor end.x end.y

  abbrev passed : Look → ℕ → Walk → Walk
  passed = pass maze g empty_cell actor end.x end.y

  abbrev press : ScanCode → List KeyPress
  press code = record { scan_code = code; status = 0 } ∷ []

  walk_stop :
      (keys : List KeyPress) (w : Walk) → (w.escaped || w.arrived) ≡ true → walk keys w ≡ ok w
  unfolding walk_loop
  walk_stop [] w e = refl
  walk_stop (key ∷ keys) w e = rw e

  walk-append :
      (keys more : List KeyPress) (w : Walk) → walk (keys ++ more) w ≡ (walk keys w >>= walk more)
  unfolding walk_loop
  walk-append [] more w = refl
  walk-append (key ∷ keys) more w = elim (Bool-cases (w.escaped || w.arrived)) [
    | inl e ↦ simp e (sym (walk_stop more w e))
    | inr e ↦ simp e (
        ap (λ f. step maze g empty_cell actor end.x end.y key w >>= f)
          (fun_ext (walk-append keys more))
        ∙ sym (bind_assoc (step maze g empty_cell actor end.x end.y key w) (walk keys) (walk more)))
  ]

  -- One key, where the walk goes on.
  walk_one :
      (code : ScanCode) (w : Walk) (l : Look)
      → (w.escaped || w.arrived) ≡ false
      → look maze code w.pos_x w.pos_y ≡ ok l
      → walk (press code) w ≡ ok (passed l 0 w)
  unfolding walk_loop step
  walk_one code w l e s = rw (e, s) refl

  -- Nobody has left by Escape, and the player has arrived or stands at `p`.
  abbrev At : Pos → Walk → Type 0
  At p w = (w.escaped ≡ false) × ((w.arrived ≡ true) ⊎ (w.arrived ≡ false) × (pos w ≡ p))

  still : (w : Walk) → w.escaped ≡ false → w.arrived ≡ false → (w.escaped || w.arrived) ≡ false
  still w e a = rw (e, a) refl

  at_end : (p : Pos) → p ≡ end → (p.x == end.x && p.y == end.y) ≡ true
  at_end p e =
      rw (eq→== p.x end.x (ap (λ (q : Pos). q.x) e), eq→== p.y end.y (ap (λ (q : Pos). q.y) e)) refl

  look_other : (x y : ℕ) → look maze other x y ≡ ok (go x y false)
  unfolding look
  look_other x y = refl

  go-At : (q : Pos) (w : Walk) → At q (passed (go q.x q.y false) 0 w)
  unfolding pass
  go-At q w = (
    refl,
    elim (Bool-cases (q.x == end.x && q.y == end.y)) [ inl e ↦ inl e | inr e ↦ inr (e, refl) ],
  )

  walk_path :
      IsClosed maze
      → (from p : Pos) (w : Walk) → Inside maze from
      → At from w
      → FreePath maze from p
      → (keys : List KeyPress) × Returns (At p) (walk keys w)
  walk_path closed from p w i a here = ([], unfold walk_loop in Returns-ok a)
  walk_path closed from q w i a (next {code} {p} path b inside f) =
      let (keys, run) = walk_path closed from p w i a path in
      elim run.holds.1 [
        | inl done ↦
            (keys, record { out = run.out; returns = run.returns; holds = (run.holds.0, inl done) })
        | inr (e, at) ↦
            let s : look maze code run.out.pos_x run.out.pos_y ≡ ok (go q.x q.y false) =
              subst (λ (r : Pos). look maze code r.x r.y ≡ ok (go q.x q.y false)) (sym at)
                (look-Free maze closed code p q (path-Inside maze closed i path) b inside f) in
            (
              keys ++ press code,
              Returns-cong (walk-append keys (press code) w) (
                  rw
                    (
                      run.returns,
                      walk_one code run.out (go q.x q.y false) (still run.out run.holds.0 e) s,
                    )
                    (Returns-ok (go-At q run.out))),
            )
      ]

  -- If free cells connect the player, who has not escaped, with the end of a closed maze, there are
  -- keys with which the walk arrives there.
  pub walk_loop_arrives :
      IsClosed maze
      → (w : Walk) → Inside maze (pos w)
      → w.escaped ≡ false
      → FreePath maze (pos w) end
      → (keys : List KeyPress) × Returns
          (λ (v : Walk). (v.arrived ≡ true) × (v.escaped ≡ false))
          (walk keys w)
  walk_loop_arrives closed w i e path =
      let start : At (pos w) w =
        (e, elim (Bool-cases w.arrived) [ inl h ↦ inl h | inr h ↦ inr (h, refl) ]) in
      let (keys, run) = walk_path closed (pos w) end w i start path in
      elim run.holds.1 [
        | inl done ↦
            (keys, record { out = run.out; returns = run.returns; holds = (done, run.holds.0) })
        | inr (a, at) ↦ (
          keys ++ press other,
          Returns-cong (walk-append keys (press other) w) (
              rw
                (
                  run.returns,
                  walk_one other run.out (go run.out.pos_x run.out.pos_y false)
                      (still run.out run.holds.0 a) (look_other run.out.pos_x run.out.pos_y),
                )
                (Returns-ok (unfold pass in (at_end (pos run.out) at, refl)))),
        )
      ]
