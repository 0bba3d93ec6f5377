-- ===== src/BootManager/Walk/Paths.antt =====
-- Passes in a row: the player stays on cells that a path of free cells leads to.
use uefi_game.Prelude.{
  ℕ, ◌-◌, ◌*◌, ◌^◌, ◌≤◌, ◌<◌, ◌≡◌, ◌≢◌, refl, inl, inr, arith, true, false, not, ◌||◌, Bool-cases,
  if◌then◌else◌, ◌==◌, leb, List, some, none, Result, length, get_elem?, Returns, Returns-ok,
  Returns-map, replicate,
}
use uefi_game.Pixels.{Pixel, zero_pixel}
use uefi_game.BootManager.Graphics.Combine.{combine_with_transparency_lem}
use uefi_game.BootManager.Walk.{
  KeyPress, Blt, Walk, Look, Maze, cell_side, cell_image, with_sprite, redraw, step,
}
use uefi_game.BootManager.Walk.Moves.{
  Pos, pos, IsValid, Inside, Holds, is_esc, toward, toward-Inside, Looked, stays, blocked, moves,
  value_at, narrow, look_lem,
}

module _ (maze : Maze) (zero_pool : ℕ → List Pixel) (textures : List (List Pixel))
    (sprite : List Pixel) (width_margin height_margin : ℕ) where
  open maze use {bootable_start as start}

  -- Each cell of the map has a texture of a full cell, the sprite is one too, and the pool has room.
  pub record Drawable : Type 0 where
    pub textured :
        (k v : ℕ)
        → get_elem? maze.map k ≡ some v
        → (image : List Pixel) × (get_elem? textures v ≡ some image)
          × (cell_side * cell_side ≤ length image)
    pub sprite_size : cell_side * cell_side ≤ length sprite
    pub room : zero_pool (4 * cell_side * cell_side) ≡ replicate (cell_side * cell_side) zero_pixel

  abbrev pass : KeyPress → Walk → Result Walk
  pass = step maze zero_pool textures sprite width_margin height_margin

  -- What one pass does, apart from the picture.
  pub data Stepped (key : KeyPress) (g g' : Walk) : Type 0 where
    idle :
        toward maze key.scan_code (pos g) ≡ none
        → pos g' ≡ pos g
        → g'.escaped ≡ (if leb start key.stale then true else is_esc key.scan_code)
        → g'.entry_to_boot ≡ (if leb start key.stale then key.stale - start else g.entry_to_boot)
        → Stepped key g g'
    stopped :
        (q : Pos) (v : ℕ)
        → toward maze key.scan_code (pos g) ≡ some q
        → Holds maze q v
        → (v ≢ 0) × (v < start)
        → pos g' ≡ pos g
        → g'.escaped ≡ false
        → g'.entry_to_boot ≡ g.entry_to_boot
        → Stepped key g g'
    walked :
        (q : Pos)
        → toward maze key.scan_code (pos g) ≡ some q
        → Holds maze q 0
        → pos g' ≡ q
        → g'.escaped ≡ false
        → g'.entry_to_boot ≡ g.entry_to_boot
        → Stepped key g g'
    arrived :
        (q : Pos) (v : ℕ)
        → toward maze key.scan_code (pos g) ≡ some q
        → Holds maze q v
        → start ≤ v
        → pos g' ≡ q
        → g'.escaped ≡ true
        → g'.entry_to_boot ≡ v - start
        → Stepped key g g'

  -- The state after a pass, from what the `switch` set.
  abbrev pub after : Walk → Look → List Blt → Walk
  after g l drawn = record {
    cur_x = l.new_x;
    cur_y = l.new_y;
    escaped = if leb start l.map_value then true else l.leaves;
    entry_to_boot = if leb start l.map_value then l.map_value - start else g.entry_to_boot;
    drawn = drawn;
  }

  after-Stepped :
      (valid : IsValid maze) (key : KeyPress) (g : Walk) (l : Look) (drawn : List Blt)
      → Looked maze key.scan_code key.stale (pos g) l
      → Stepped key g (after g l drawn)
  after-Stepped valid key g l drawn (stays e f) = rw f (idle e refl refl refl)
  after-Stepped valid key g l drawn (blocked q v to at some_v low f) =
      rw f (stopped q v to at (some_v, low) refl (ground arith) (ground arith))
  after-Stepped valid key g l drawn (moves q v to at (inl free) f) =
      let t = valid.textured in
      rw f (walked q to (rw free at at) refl (ground arith) (ground arith))
  after-Stepped valid key g l drawn (moves q v to at (inr entry) f) =
      rw f (arrived q v to at entry refl (ground arith) (ground arith))

  module _ (valid : IsValid maze) (d : Drawable) where
    pub cell_image_lem :
        (q : Pos)
        → Inside maze q
        → Returns
            (λ (image : List Pixel). cell_side * cell_side ≤ length image)
            (cell_image maze textures q.0 q.1)
    unfolding cell_image
    cell_image_lem q i =
        let (v, at) = value_at maze valid q i in
        let (image, there, full) = d.textured _ v at in
        record { out = image; returns = rw (narrow maze valid q i, at, there); holds = full }

    fits : 4 * cell_side * cell_side < 2 ^ 64
    unfolding cell_side
    fits = omega arith

    pub with_sprite_lem :
        (image : List Pixel)
        → cell_side * cell_side ≤ length image
        → Returns
            (λ b. Unit {0})
            (with_sprite maze zero_pool textures sprite width_margin height_margin image)
    unfolding with_sprite
    with_sprite_lem image full =
        Returns-map
          (combine_with_transparency_lem zero_pool sprite image cell_side cell_side fits
            d.sprite_size full d.room)
          (λ b h. tt)

    redraw_lem :
        (p q : Pos) (drawn : List Blt)
        → Inside maze p
        → Inside maze q
        → Returns
            (λ b. Unit {0})
            (redraw maze zero_pool textures sprite width_margin height_margin p.0 p.1 q.0 q.1 drawn)
    unfolding redraw
    redraw_lem p q drawn i j =
        let behind = cell_image_lem p i in
        let under = cell_image_lem q j in
        let combined = with_sprite_lem under.out under.holds in
        rw (behind.returns, under.returns, combined.returns) (Returns-ok tt)

    look_Inside :
        (key : KeyPress) (g : Walk) (l : Look)
        → Inside maze (pos g)
        → Looked maze key.scan_code key.stale (pos g) l
        → Inside maze (l.new_x, l.new_y)
    look_Inside key g l i (stays e f) = rw f i
    look_Inside key g l i (blocked q v to at some_v low f) = rw f i
    look_Inside key g l i (moves q v to at free f) =
        rw f (toward-Inside maze key.scan_code (pos g) q i to)

    -- From a cell of the maze one pass of the loop returns, without a fault. It stays where the key
    -- points to no cell or to a wall, and else goes to the cell that the key points to; it ends the
    -- game on the cell of an entry, or by what `MapValue` held where the map was not read.
    pub step_lem :
        (key : KeyPress) (g : Walk) → Inside maze (pos g) → Returns (Stepped key g) (pass key g)
    unfolding step
    step_lem key g i =
        let l = look_lem maze valid key.scan_code key.stale (pos g) i in
        let moved = not (l.out.new_x == g.cur_x) || not (l.out.new_y == g.cur_y) in
        let there = look_Inside key g l.out i l.holds in
        elim (Bool-cases moved) [
          | inl goes ↦
              let r = redraw_lem (pos g) (l.out.new_x, l.out.new_y) g.drawn i there in
              record {
                out = after g l.out r.out;
                returns = rw (l.returns, goes, r.returns);
                holds = after-Stepped valid key g l.out r.out l.holds;
              }
          | inr rests ↦ record {
            out = after g l.out g.drawn;
            returns = rw (l.returns, rests);
            holds = after-Stepped valid key g l.out g.drawn l.holds;
          }
        ]
