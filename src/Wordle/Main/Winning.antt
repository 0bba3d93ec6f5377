-- ===== src/Wordle/Main/Winning.antt =====
-- A whole game, from the file to the boot.
use uefi_game.Prelude.{
  ℕ, ◌+◌, ◌≡◌, refl, sym, ap, ◌∙◌, inl, inr, some, List, [], ◌∷◌, ◌++◌, arith, dec_lt, ℕ_discrete,
  ◌==◌, Bool-cases, length, get_elem?, length-append, get_elem?-of_le, get_elem?-append_left,
  get_elem?-append_right, ok, Returns, Returns-ok, Returns-bind, eq-of_get_elem?,
}
use uefi_game.Disk.{Firmware, FileData, read_file}
use uefi_game.Wordle.Play.{Keystroke, Session, line_break, c_string, game}
use uefi_game.Wordle.Play.Typing.{AllFive, lines, length-AllFive, Copied, choose_word_lem}
use uefi_game.Wordle.Play.Verdict.{Ends, won, lost, play_lem}
use uefi_game.Wordle.Main.{words_txt, units, get_random, uefi_main}

c_string_lem : (w rest : List ℕ) → Returns (λ (s : List ℕ). s ≡ s) (c_string (w ++ 0 ∷ rest))
unfolding c_string
c_string_lem [] rest = Returns-ok refl
c_string_lem (c ∷ cs) rest = elim (Bool-cases (c == 0)) [
  | inl e ↦ rw e (Returns-ok refl)
  | inr e ↦ rw e (Returns-bind (λ s. ok (c ∷ s)) (c_string_lem cs rest) (λ s h. Returns-ok refl))
]

-- What ends a game does not depend on the messages.
Ends-quiet :
    (keys : ℕ → Keystroke) (word : List ℕ) (option left : ℕ) (g g' : Session)
    (before after : List (List ℕ))
    → Ends keys word option left (record g { console = before }) g'
    → Ends keys word option left g (record g' { console = after })
Ends-quiet keys word option left g g' before after (won m l s e n o) = won m l s e n o
Ends-quiet keys word option left g g' before after (lost e n o) = lost e n o

Copied-word : (w word : List ℕ) → length w ≡ 5 → Copied w 5 word → word ≡ w ++ 0 ∷ []
Copied-word w word five c = eq-of_get_elem? word (w ++ 0 ∷ []) λ k. elim (dec_lt k 5) [
  | yes low ↦ c.copied k low ∙ sym (get_elem?-append_left w (0 ∷ []) k (omega arith))
  | no high ↦ elim (ℕ_discrete k 5) [
    | yes e ↦
        let o : length w + 0 ≡ 5 = omega arith in
        rw e (
          c.rest 5 (omega arith)
          ∙ sym (get_elem?-append_right w (0 ∷ []) 0)
          ∙ ap (get_elem? (w ++ 0 ∷ [])) o)
    | no ne ↦
        get_elem?-of_le word k (omega (arith, c.size))
        ∙ sym (get_elem?-of_le (w ++ 0 ∷ []) k (omega (arith, five, length-append w (0 ∷ []))))
  ]
]

module _ (keys : ℕ → Keystroke) (options : List ℕ) (option first : ℕ) (ws : List (List ℕ))
    (w : List ℕ) where
  -- The fourth boot option is `option`; the file of five-letter words is read, and its eleventh word
  -- is `w`. Then `UefiMain` never faults, whatever is typed. It boots that option exactly if one of
  -- the six guesses spells the word, after the first that does.
  pub wordle_lem :
      (fw : Firmware) (file : FileData)
      → get_elem? options 3 ≡ some option
      → read_file fw words_txt ≡ ok file
      → units file.word_list ≡ first ∷ lines ws
      → AllFive ws
      → get_elem? ws 10 ≡ some w
      → Returns
          (Ends keys
            (w ++ 0 ∷ [])
            option
            6
            (record { next = 0; status = 0; console = []; booted = [] }))
          (uefi_main fw keys options)
  unfolding uefi_main get_random game
  wordle_lem fw file o r u all at =
      let five = length-AllFive ws 10 all at in
      let c = choose_word_lem first ws 10 w all at in
      let same = Copied-word w c.out five c.holds in
      let shown = c_string_lem w [] in
      let g : Session = record {
        next = 0;
        status = 0;
        console = shown.out ∷ line_break ∷ [];
        booted = [];
      } in
      let p =
        play_lem keys (w ++ 0 ∷ []) options option 6 g o
          (omega (arith, five, length-append w (0 ∷ []))) in
      rw (r, u, c.returns, same, shown.returns, p.returns)
        (Returns-ok (Ends-quiet keys (w ++ 0 ∷ []) option 6 _ p.out _ _ p.holds))
