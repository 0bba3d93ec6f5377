-- ===== src/Wordle/Play/Typing.antt =====
-- What the player types reaches the buffer, and the chosen word is a line of the list.
use uefi_game.Prelude.{
  ℕ, zero, suc, ◌+◌, ◌*◌, ◌≤◌, ◌<◌, ◌≡◌, refl, sym, ap, ◌∙◌, arith, ◌==◌, if◌then◌else◌, List, [],
  ◌∷◌, ◌++◌, some, ok, length, get_elem?, get_elem?-append_right, get_elem?-append_left,
  get_elem?-of_lt, get_elem?-set_self, get_elem?-set_ne, set, length-set, store_lem, Returns,
  for_loop_from_zero, some_inj, dec_lt,
}
use native.Mathlib.Numerals.{towards_suc}
use mathlib.Core.List.{append_assoc}
use uefi_game.Wordle.Play.{
  Keystroke, Session, six_zeros, c_string, copy_letter, choose_word, read_guess,
}

abbrev pub echo : ℕ → List ℕ
echo c = if c == 0 then [] else c ∷ []

c_string_single : (c : ℕ) (rest : List ℕ) → c_string (c ∷ 0 ∷ rest) ≡ ok (echo c)
unfolding c_string
c_string_single c rest = ground arith

module _ (keys : ℕ → Keystroke) where
  abbrev pub char : ℕ → ℕ
  char n = (keys n).unicode_char

  abbrev pub guess : ℕ → List ℕ
  guess n = char n ∷ char (n + 1) ∷ char (n + 2) ∷ char (n + 3) ∷ char (n + 4) ∷ 0 ∷ []

  pub read_guess_lem :
      (g : Session)
      → read_guess keys g
        ≡ ok (record {
          input = guess g.next;
          session = record g {
            next = g.next + 5;
            status = (keys (g.next + 4)).status;
            console =
                g.console
                ++ (echo (char g.next)
                    ∷ echo (char (g.next + 1))
                    ∷ echo (char (g.next + 2))
                    ∷ echo (char (g.next + 3))
                    ∷ echo (char (g.next + 4))
                    ∷ []);
          };
        })
  unfolding read_guess
  read_guess_lem g = simp (c_string_single, append_assoc, towards_suc)

-- The text of a file of words: each ends its line.
abbrev pub lines : List (List ℕ) → List ℕ
lines [] = []
lines (w ∷ ws) = w ++ (b'\n' ∷ lines ws)

-- Every word has five letters.
abbrev pub AllFive : List (List ℕ) → Type 0
AllFive [] = Unit
AllFive (w ∷ ws) = (length w ≡ 5) × AllFive ws

pub length-AllFive :
    (ws : List (List ℕ)) (n : ℕ) {w : List ℕ} → AllFive ws → get_elem? ws n ≡ some w → length w ≡ 5
length-AllFive [] n h e = cc
length-AllFive (v ∷ ws) zero h e = omega (arith, h.0, ap length (some_inj e))
length-AllFive (v ∷ ws) (suc n) h e = length-AllFive ws n h.1 e

get_elem?-lines :
    (ws : List (List ℕ)) (n i : ℕ) {w : List ℕ}
    → AllFive ws
    → get_elem? ws n ≡ some w
    → i < 5
    → get_elem? (lines ws) (6 * n + i) ≡ get_elem? w i
get_elem?-lines [] n i h e low = cc
get_elem?-lines (v ∷ ws) zero i h e low =
    let same = some_inj e in
    let at : 6 * 0 + i ≡ i = omega arith in
    rw at (get_elem?-append_left v _ i (omega (arith, h.0)) ∙ ap (λ x. get_elem? x i) same)
get_elem?-lines (v ∷ ws) (suc n) i h e low =
    let at : 6 * suc n + i ≡ length v + suc (6 * n + i) = omega (arith, h.0) in
    rw at (get_elem?-append_right v _ (suc (6 * n + i)) ∙ get_elem?-lines ws n i h.1 e low)

-- After the first `n` letters of `w` are copied.
pub record Copied (w : List ℕ) (n : ℕ) (word : List ℕ) : Type 0 where
  pub size : length word ≡ 6
  pub copied : (i : ℕ) → i < n → get_elem? word i ≡ get_elem? w i
  pub rest : (i : ℕ) → n ≤ i → get_elem? word i ≡ get_elem? six_zeros i

module _ (first : ℕ) (ws : List (List ℕ)) (idx : ℕ) (w : List ℕ) (all : AllFive ws)
    (at : get_elem? ws idx ≡ some w) where
  copy_letter_lem :
      (i : ℕ) (word : List ℕ)
      → i < 5
      → Copied w i word
      → Returns (Copied w (i + 1)) (copy_letter (first ∷ lines ws) idx i word)
  unfolding copy_letter
  copy_letter_lem i word low c =
      let (a, e) = get_elem?-of_lt w i (omega (arith, length-AllFive ws idx all at)) in
      let there : get_elem? (first ∷ lines ws) (6 * idx + i + 1) ≡ some a =
        let s : 6 * idx + i + 1 ≡ suc (6 * idx + i) = omega arith in
        rw s (get_elem?-lines ws idx i all at low ∙ e) in
      let room : i < length word = rw c.size (omega arith) in
      record {
        out = set word i a;
        returns = rw there (store_lem word i a room);
        holds = record {
          size = length-set word i a ∙ c.size;
          copied = λ k h. elim (dec_lt k i) [
            | yes l ↦ get_elem?-set_ne word i k a (omega arith) ∙ c.copied k l
            | no l ↦
                let s : i ≡ k = omega arith in rw (← s) (get_elem?-set_self word i a room ∙ sym e)
          ];
          rest = λ k h. get_elem?-set_ne word i k a (omega arith) ∙ c.rest k (omega arith);
        };
      }

  -- In a file of five-letter words, one to a line behind the first unit (the byte order mark), the
  -- word with index `idx` is read without a fault; it is copied whole, and the sixth unit stays 0.
  pub choose_word_lem : Returns (Copied w 5) (choose_word (first ∷ lines ws) idx)
  unfolding choose_word
  choose_word_lem =
      for_loop_from_zero (Copied w) (copy_letter (first ∷ lines ws) idx) 5
        (λ i word low c. copy_letter_lem i word low c) six_zeros
        (record { size = refl; copied = λ i h. absurd (omega arith); rest = λ i h. refl })
