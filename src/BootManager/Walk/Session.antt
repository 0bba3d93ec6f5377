-- ===== src/BootManager/Walk/Session.antt =====
-- A whole game: what can be booted, and by which keys.
use uefi_game.Prelude.{
  ℕ, ◌-◌, ◌≤◌, ◌<◌, ◌≡◌, refl, sym, ap, ◌∙◌, ◌⊎◌, inl, inr, arith, true, false, Bool-cases, List,
  [], ◌∷◌, ◌++◌, some, Result, ok, ◌>>=◌, Returns, Returns-ok, bind_assoc,
}
use mathlib.Core.Path.{subst, fun_ext}
use uefi_game.Pixels.{Pixel}
use uefi_game.BootManager.Walk.{ScanCode, KeyPress, Walk, Maze, escape_entry, step, walk_loop}
use uefi_game.BootManager.Walk.Moves.{Pos, pos, IsValid, Inside, Holds, toward, toward-Inside}
use uefi_game.BootManager.Walk.Paths.{Drawable, Stepped, idle, stopped, walked, arrived, step_lem}

-- A path over free cells.
pub data FreePath (maze : Maze) (from : Pos) : Pos → Type 0 where
  here : FreePath maze from from
  next :
      {p q : Pos}
      → FreePath maze from p
      → (code : ScanCode) → toward maze code p ≡ some q
      → Holds maze q 0
      → FreePath maze from q

pub FreePath-Inside :
    (maze : Maze) {from p : Pos} → Inside maze from → FreePath maze from p → Inside maze p
FreePath-Inside maze i here = i
FreePath-Inside maze i (next {p} {q} path code to free) =
    toward-Inside maze code p q (FreePath-Inside maze i path) to

-- The cell of boot entry `e` lies beside the end of such a path.
pub record Leads (maze : Maze) (from : Pos) (e : ℕ) : Type 0 where
  pub end : Pos
  pub path : FreePath maze from end
  pub code : ScanCode
  pub cell : Pos
  pub value : ℕ
  pub beside : toward maze code end ≡ some cell
  pub holds : Holds maze cell value
  pub above : maze.bootable_start ≤ value
  pub entry : e ≡ value - maze.bootable_start

-- No key press finds a stale `MapValue` that looks like a boot entry.
abbrev pub AllHonest : Maze → List KeyPress → Type 0
AllHonest maze [] = Unit
AllHonest maze (key ∷ keys) = (key.stale < maze.bootable_start) × AllHonest maze keys

module _ (maze : Maze) (zero_pool : ℕ → List Pixel) (textures : List (List Pixel))
    (sprite : List Pixel) (width_margin height_margin : ℕ) where
  open maze use {bootable_start as start}

  abbrev walk : List KeyPress → Walk → Result Walk
  walk = walk_loop maze zero_pool textures sprite width_margin height_margin

  abbrev pass : KeyPress → Walk → Result Walk
  pass = step maze zero_pool textures sprite width_margin height_margin

  pub walk_stop : (keys : List KeyPress) (g : Walk) → g.escaped ≡ true → walk keys g ≡ ok g
  unfolding walk_loop
  walk_stop [] g e = refl
  walk_stop (key ∷ keys) g e = rw e

  pub walk_on :
      (key : KeyPress) (keys : List KeyPress) (g : Walk)
      → g.escaped ≡ false
      → walk (key ∷ keys) g ≡ (pass key g >>= walk keys)
  unfolding walk_loop
  walk_on key keys g e = rw e

  pub walk-append :
      (keys more : List KeyPress) (g : Walk) → walk (keys ++ more) g ≡ (walk keys g >>= walk more)
  unfolding walk_loop
  walk-append [] more g = refl
  walk-append (key ∷ keys) more g = elim (Bool-cases g.escaped) [
    | inl e ↦ simp e (sym (walk_stop more g e))
    | inr e ↦ simp e (
        ap (λ f. pass key g >>= f) (fun_ext (walk-append keys more))
        ∙ sym (bind_assoc (pass key g) (walk keys) (walk more)))
  ]

  -- Where a game from `from` stands, and what it has decided.
  abbrev pub Ending : Pos → Walk → Type 0
  Ending from g =
      FreePath maze from (pos g) × (g.entry_to_boot ≡ escape_entry)
      ⊎ (g.escaped ≡ true) × Leads maze from g.entry_to_boot

  module _ (valid : IsValid maze)
      (d : Drawable maze zero_pool textures sprite width_margin height_margin) where
    -- A pass on the way: the path grows, or the game is decided.
    Ending-step :
        (from : Pos) (key : KeyPress) (g g' : Walk)
        → key.stale < start
        → FreePath maze from (pos g)
        → g.entry_to_boot ≡ escape_entry
        → Stepped maze zero_pool textures sprite width_margin height_margin key g g'
        → Ending from g'
    Ending-step from key g g' low path e (idle to at out entry) =
        inl (subst (FreePath maze from) (sym at) path, ground arith)
    Ending-step from key g g' low path e (stopped q v to h wall at out entry) =
        inl (subst (FreePath maze from) (sym at) path, entry ∙ e)
    Ending-step from key g g' low path e (walked q to h at out entry) =
        inl (subst (FreePath maze from) (sym at) (next path key.scan_code to h), entry ∙ e)
    Ending-step from key g g' low path e (arrived q v to h above at out entry) = inr (
      out,
      record {
        end = pos g;
        path = path;
        code = key.scan_code;
        cell = q;
        value = v;
        beside = to;
        holds = h;
        above = above;
        entry = entry;
      },
    )

    -- From a cell of a valid maze the loop never faults, whatever is pressed, if no pass boots by a
    -- stale map value. It boots nothing but an entry whose cell lies beside a cell that free cells
    -- lead to; else the player stands on such a cell.
    pub walk_loop_lem :
        (from : Pos) (keys : List KeyPress) (g : Walk)
        → Inside maze from
        → AllHonest maze keys
        → Ending from g
        → Returns (Ending from) (walk keys g)
    walk_loop_lem from [] g i honest s = unfold walk_loop in Returns-ok s
    walk_loop_lem from (key ∷ keys) g i honest (inr s) =
        rw (walk_stop (key ∷ keys) g s.0) (Returns-ok (inr s))
    walk_loop_lem from (key ∷ keys) g i honest (inl s) = elim (Bool-cases g.escaped) [
      | inl e ↦ rw (walk_stop (key ∷ keys) g e) (Returns-ok (inl s))
      | inr e ↦
          let st =
            step_lem maze zero_pool textures sprite width_margin height_margin valid d key g
              (FreePath-Inside maze i s.0) in
          rw (walk_on key keys g e, st.returns)
            (walk_loop_lem from keys st.out i honest.1
              (Ending-step from key g st.out honest.0 s.0 s.1 st.holds))
    ]
