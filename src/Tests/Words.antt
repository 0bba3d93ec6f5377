-- ===== src/Tests/Words.antt =====
-- Application/Wordle/Wordle.c: a reply, a word of the list, a game, a file read.
use uefi_game.Prelude.{
  ℕ, zero, suc, ◌≡◌, refl, some, List, [], ◌∷◌, ◌++◌, arith, replicate, ok, Returns,
}
use uefi_game.Disk.{Firmware, read_file}
use uefi_game.Wordle.Score.{score}
use uefi_game.Wordle.Score.Marks.{Scored, score_lem}
use uefi_game.Wordle.Play.{Keystroke, Session, choose_word, play}
use uefi_game.Wordle.Play.Typing.{lines}
use uefi_game.Wordle.Main.{words_txt, units, uefi_main}
use uefi_game.Wordle.Main.Winning.{wordle_lem}
use uefi_game.Wordle.Play.Typing.{AllFive}
use uefi_game.Wordle.Play.Verdict.{Ends, play_lem}

abbrev crane : List ℕ
crane = b'c' ∷ b'r' ∷ b'a' ∷ b'n' ∷ b'e' ∷ []

abbrev eerie : List ℕ
eerie = b'e' ∷ b'e' ∷ b'r' ∷ b'i' ∷ b'e' ∷ []

-- Both stray letters `e` of the guess are marked, though the word has one `e`, which is a hit.
score-eerie :
    score eerie crane
    ≡ ok (record { marks = b'?' ∷ b'?' ∷ b'?' ∷ b'_' ∷ b'+' ∷ 0 ∷ []; pluses = 1 })
unfolding score
score-eerie = refl

abbrev two_words : List (List ℕ)
two_words = eerie ∷ crane ∷ []

choose_crane : choose_word (0xfeff ∷ lines two_words) 1 ≡ ok (crane ++ 0 ∷ [])
unfolding choose_word
choose_crane = refl

-- The player types the word again and again.
abbrev keys : ℕ → Keystroke
keys n = record { status = 0; unicode_char = b'e' }

abbrev eeeee : List ℕ
eeeee = b'e' ∷ b'e' ∷ b'e' ∷ b'e' ∷ b'e' ∷ []

abbrev begin : Session
begin = record { next = 0; status = 0; console = []; booted = [] }

-- One volume more than the code needs; the file with handle 3 is `abc`.
abbrev disk : Firmware
disk = record {
  locate_handles = some (7 ∷ 8 ∷ []);
  file_system = λ h. some h;
  open_volume = λ v. some v;
  open_file = λ root name. some 3;
  file_size = λ file. some 3;
  allocate_pool = λ n. 9 ∷ 9 ∷ 9 ∷ [];
  read_bytes = λ file n. b'a' ∷ b'b' ∷ b'c' ∷ [];
  close_status = λ root. 0;
}

read_abc :
    read_file disk [] ≡ ok (record { word_list = b'a' ∷ b'b' ∷ 0 ∷ []; size = 3; status = 0 })
unfolding read_file
read_abc = refl

score_lem_example : Returns (Scored eerie crane 5) (score eerie crane)
score_lem_example = score_lem eerie crane (omega arith) (omega arith)

play_lem_example :
    Returns (Ends keys eeeee 4 6 begin) (play keys (1 ∷ 2 ∷ 3 ∷ 4 ∷ []) 6 eeeee begin)
play_lem_example = play_lem keys eeeee (1 ∷ 2 ∷ 3 ∷ 4 ∷ []) 4 6 begin refl (omega arith)

-- The file of eleven words, two bytes for each unit.
abbrev doubled : List ℕ → List ℕ
doubled [] = []
doubled (c ∷ cs) = c ∷ 0 ∷ doubled cs

abbrev words_bytes : List ℕ
words_bytes = 255 ∷ 254 ∷ doubled (lines (replicate 11 crane))

abbrev words_disk : Firmware
words_disk = record disk {
  file_size = λ file. some 134;
  allocate_pool = λ n. replicate n 9;
  read_bytes = λ file n. words_bytes;
}

words_read :
    read_file words_disk words_txt ≡ ok (record { word_list = words_bytes; size = 134; status = 0 })
unfolding read_file
words_read = refl

crane_five : (n : ℕ) → AllFive (replicate n crane)
crane_five zero = tt
crane_five (suc n) = (refl, crane_five n)

wordle_lem_example :
    Returns (Ends keys (crane ++ 0 ∷ []) 4 6 begin) (uefi_main words_disk keys (1 ∷ 2 ∷ 3 ∷ 4 ∷ []))
unfolding units
wordle_lem_example =
    wordle_lem keys (1 ∷ 2 ∷ 3 ∷ 4 ∷ []) 4 0xfeff (replicate 11 crane) crane words_disk
      (record { word_list = words_bytes; size = 134; status = 0 }) refl words_read refl
      (crane_five 11) refl
