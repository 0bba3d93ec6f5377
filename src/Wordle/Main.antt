-- ===== src/Wordle/Main.antt =====
-- Application/Wordle/Wordle.c, `GetRandom` and `UefiMain` as a whole. The messages before the word is
-- shown and `FreePool` are left out; `GetRandom` looks for its protocol and stores 10 whether it
-- is there or not.

pub mod Winning
use uefi_game.Prelude.{ℕ, ◌+◌, ◌*◌, List, [], ◌∷◌, Result, ◌>>=◌}
use uefi_game.Disk.{Firmware, read_file}
use uefi_game.Wordle.Play.{Keystroke, Session, game}

-- `L"words.txt"`
abbrev pub words_txt : List ℕ
words_txt = b'w' ∷ b'o' ∷ b'r' ∷ b'd' ∷ b's' ∷ b'.' ∷ b't' ∷ b'x' ∷ b't' ∷ []

-- The `CHAR16`s of a buffer of bytes.
unfoldable pub units : List ℕ → List ℕ
units [] = []
units (a ∷ []) = []
units (a ∷ b ∷ bs) = (a + 256 * b) ∷ units bs

-- The status, and `*result`.
pub get_random : ℕ × ℕ
get_random = (0, 10)

unfoldable pub uefi_main : Firmware → (ℕ → Keystroke) → List ℕ → Result Session
unfolding read_file units get_random game
uefi_main fw keys options = do
  file ← read_file fw words_txt
  let (status, word_idx) = get_random
  game keys options (units file.word_list) word_idx
      (record { next = 0; status = status; console = []; booted = [] })
