-- ===== src/Lines.antt =====
-- The loop with which `ParseSprite` of Application/BootManager2D/src/Config.c and `ParseActor` and
-- `ParseMazeFile` of Application/Maze/Maze.c find the length of the first line of a file.
use uefi_game.Prelude.{
  ℕ, zero, suc, ◌+◌, ◌<◌, ◌≡◌, refl, ap, ◌≢◌, false, some, List, [], ◌∷◌, arith, ◌==◌,
  if◌then◌else◌, get_elem?, Result, ok, fault,
}

-- `while (spriteData[*Width] != '\n') (*Width)++;` from `n` on; the file is all that can be read.
unfoldable pub line_width : List ℕ → ℕ → Result ℕ
line_width [] n = fault
line_width (c ∷ cs) n = if c == b'\n' then ok n else line_width cs (n + 1)

pub line_width_lem :
    (file : List ℕ) (w n : ℕ)
    → get_elem? file w ≡ some b'\n'
    → ((k : ℕ) → k < w → get_elem? file k ≢ some b'\n')
    → line_width file n ≡ ok (n + w)
unfolding line_width
line_width_lem [] w n e first = absurd (ground arith)
line_width_lem (c ∷ cs) zero n e first = ground (arith)
line_width_lem (c ∷ cs) (suc w) n e first =
    let more : (c == b'\n') ≡ false = ground (arith, first 0) in
    rw (more, line_width_lem cs w (n + 1) e (λ k h. first (suc k) (omega arith)))
      (ap ok (omega arith))

-- A file without a line break is read to its end and behind it.
pub no_line_lem :
    (file : List ℕ) (n : ℕ) → ((k : ℕ) → get_elem? file k ≢ some b'\n') → line_width file n ≡ fault
unfolding line_width
no_line_lem [] n none_there = refl
no_line_lem (c ∷ cs) n none_there =
    let more : (c == b'\n') ≡ false = ground (arith, none_there 0) in
    rw more (no_line_lem cs (n + 1) (λ k. none_there (suc k)))
