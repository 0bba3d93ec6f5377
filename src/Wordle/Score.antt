-- ===== src/Wordle/Score.antt =====
-- Application/Wordle/Wordle.c, the reply to one guess: the loops over `idx` and `idx_2`.
pub mod Marks
use uefi_game.Prelude.{
  ℕ, zero, suc, ◌+◌, Bool, ◌==◌, if◌then◌else◌, List, [], ◌∷◌, Result, ok, ◌>>=◌, load, store,
  for_loop,
}

pub record Reply : Type 0 where
  pub marks : List ℕ
  pub pluses : ℕ

-- The inner loop with `n` rounds left: the first letter of `word` that is `c` marks `reply[idx]`.
pub mark_misplaced : ℕ → ℕ → ℕ → ℕ → List ℕ → List ℕ → Result (List ℕ)
mark_misplaced zero j c idx word marks = ok marks
mark_misplaced (suc n) j c idx word marks = do
  w ← load word j
  let rest = mark_misplaced n (j + 1) c idx word marks
  if c == w then store marks idx b'?' else rest

pub score_letter : List ℕ → List ℕ → ℕ → Reply → Result Reply
score_letter input word idx r = do
  a ← load input idx
  b ← load word idx
  let hit = do marks ← store r.marks idx b'+'; ok (record { marks = marks; pluses = r.pluses + 1 })
  let miss = do marks ← mark_misplaced 5 0 a idx word r.marks; ok (record r { marks = marks })
  if a == b then hit else miss

abbrev pub blank_reply : Reply
blank_reply = record { marks = b'_' ∷ b'_' ∷ b'_' ∷ b'_' ∷ b'_' ∷ 0 ∷ []; pluses = 0 }

unfoldable pub score : List ℕ → List ℕ → Result Reply
unfolding for_loop score_letter mark_misplaced
score input word = for_loop 5 0 (score_letter input word) blank_reply
