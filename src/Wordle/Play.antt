-- ===== src/Wordle/Play.antt =====
-- Application/Wordle/Wordle.c, `UefiMain` after the file is read. The key presses are a parameter,
-- numbered in their order; `Print` and `OutputString` append to `console`, and a call of
-- `EfiBootManagerBoot` appends the option to `booted`.
pub mod Typing
pub mod Verdict
use uefi_game.Prelude.{
  ℕ, zero, suc, ◌+◌, ◌*◌, ◌==◌, if◌then◌else◌, List, [], ◌∷◌, ◌++◌, Result, ok, fault, ◌>>=◌, load,
  store, drop, for_loop,
}
use uefi_game.Wordle.Score.{Reply, score}

-- What `ReadKeyStroke` returns and stores.
pub record Keystroke : Type 0 where
  pub status : ℕ
  pub unicode_char : ℕ

pub record Session : Type 0 where
  pub next : ℕ
  pub status : ℕ
  pub console : List (List ℕ)
  pub booted : List ℕ

pub record Typed : Type 0 where
  pub input : List ℕ
  pub session : Session

pub record Move : Type 0 where
  pub reply : Reply
  pub session : Session

abbrev pub line_break : List ℕ
line_break = b'\n' ∷ []

-- `CHAR16 w[6] = {'\0', '\0', '\0', '\0', '\0', '\0'}`
abbrev pub six_zeros : List ℕ
six_zeros = 0 ∷ 0 ∷ 0 ∷ 0 ∷ 0 ∷ 0 ∷ []

-- The string that starts at a pointer.
unfoldable pub c_string : List ℕ → Result (List ℕ)
c_string [] = fault
c_string (c ∷ cs) = if c == 0 then ok [] else (c_string cs >>= λ s. ok (c ∷ s))

abbrev pub show : List ℕ → Session → Session
show s g = record g { console = g.console ++ (s ∷ []) }

pub copy_letter : List ℕ → ℕ → ℕ → List ℕ → Result (List ℕ)
copy_letter word_list word_idx i word = do c ← load word_list (6 * word_idx + i + 1); store word i c

unfoldable pub choose_word : List ℕ → ℕ → Result (List ℕ)
unfolding for_loop copy_letter
choose_word word_list word_idx = for_loop 5 0 (copy_letter word_list word_idx) six_zeros

module _ (keys : ℕ → Keystroke) where
  pub read_letter : ℕ → Typed → Result Typed
  unfolding c_string
  read_letter input_idx t = do
    let g = t.session
    let key = keys g.next
    input ← store t.input input_idx key.unicode_char
    s ← c_string (drop input_idx input)
    ok (record {
      input = input;
      session = record g {
        next = g.next + 1;
        status = key.status;
        console = g.console ++ (s ∷ []);
      };
    })

  pub read_guess : Session → Result Typed
  unfolding for_loop read_letter
  read_guess g = for_loop 5 0 read_letter (record { input = six_zeros; session = g })

  -- One pass of the loop over `move`, up to the test of `pluses`.
  pub play_move : List ℕ → Session → Result Move
  unfolding read_guess score
  play_move word g = do
    t ← read_guess g
    r ← score t.input word
    ok (record { reply = r; session = show line_break (show r.marks (show line_break t.session)) })

  module _ (options : List ℕ) where
    -- `EfiBootManagerBoot(&BootOption[3])`
    pub boot : Session → Result Session
    boot g = do option ← load options 3; ok (record g { booted = g.booted ++ (option ∷ []) })

    -- The loop over `move`, with `left` moves to go.
    pub play : ℕ → List ℕ → Session → Result Session
    unfolding play_move boot
    play zero word g = ok g
    play (suc left) word g = do
      m ← play_move word g
      let rest = play left word m.session
      if m.reply.pluses == 5 then boot m.session else rest

    -- From the word list in memory to the end; `word_idx` is what `GetRandom` stored.
    unfoldable pub game : List ℕ → ℕ → Session → Result Session
    unfolding choose_word play
    game word_list word_idx g = do
      word ← choose_word word_list word_idx
      shown ← c_string word
      g' ← play 6 word (show line_break (show shown g))
      ok (show (b'G' ∷ b'a' ∷ b'm' ∷ b'e' ∷ b' ' ∷ b'e' ∷ b'n' ∷ b'd' ∷ b'e' ∷ b'd' ∷ []) g')
