-- ===== src/Wordle/Play/Verdict.antt =====
-- Who gets to boot: the loop over `move`.
use uefi_game.Prelude.{
  ℕ, zero, suc, ◌+◌, ◌*◌, ◌≤◌, ◌<◌, ◌≡◌, refl, sym, ◌∙◌, ◌↔◌, inl, inr, arith, ◌==◌, Bool-cases,
  ==→eq, ==→ne, List, [], ◌∷◌, ◌++◌, some, length, get_elem?, Returns, Returns-ok, Returns-bind,
}
use mathlib.Core.Path.{subst}
use uefi_game.Wordle.Score.Marks.{IsHit, score_lem}
use uefi_game.Wordle.Play.{Keystroke, Session, Move, play_move, boot, play}
use uefi_game.Wordle.Play.Typing.{guess, read_guess_lem}

module _ (keys : ℕ → Keystroke) (word : List ℕ) where
  -- The five keys from number `n` on spell the word.
  abbrev pub Spells : ℕ → Type 0
  Spells n = (i : ℕ) → i < 5 → IsHit (guess keys n) word i

  record Played (g : Session) (m : Move) : Type 0 where
    next : m.session.next ≡ g.next + 5
    booted : m.session.booted ≡ g.booted
    pluses : (m.reply.pluses ≡ 5) ↔ Spells g.next

  play_move_lem : (g : Session) → 5 ≤ length word → Returns (Played g) (play_move keys word g)
  unfolding play_move
  play_move_lem g h = rw (read_guess_lem keys g) (
      Returns-bind _ (score_lem (guess keys g.next) word (omega arith) h)
        λ r s. Returns-ok (record { next = refl; booted = refl; pluses = s.all_hit }))

  -- The first of the next `left` guesses that spells the word boots `option`, and ends the game.
  -- With no such guess nothing is booted, and all the moves are used.
  pub data Ends (option : ℕ) (left : ℕ) (g g' : Session) : Type 0 where
    won :
        (m : ℕ)
        → m < left
        → Spells (g.next + 5 * m)
        → ((k : ℕ) → k < m → ¬ Spells (g.next + 5 * k))
        → g'.next ≡ g.next + 5 * (m + 1)
        → g'.booted ≡ g.booted ++ (option ∷ [])
        → Ends option left g g'
    lost :
        ((k : ℕ) → k < left → ¬ Spells (g.next + 5 * k))
        → g'.next ≡ g.next + 5 * left
        → g'.booted ≡ g.booted
        → Ends option left g g'

  now : (n : ℕ) → Spells n → Spells (n + 5 * 0)
  now n h = let e : n ≡ n + 5 * 0 = omega arith in subst Spells e h

  -- A later guess, numbered from the session `g` and from the session `p` one move on.
  same_guess : (g p : Session) (k : ℕ) → p.next ≡ g.next + 5 → g.next + 5 * suc k ≡ p.next + 5 * k
  same_guess g p k e = omega arith

  not_later :
      (g p : Session) (n : ℕ)
      → p.next ≡ g.next + 5
      → ¬ Spells g.next
      → ((k : ℕ) → k < n → ¬ Spells (p.next + 5 * k))
      → (k : ℕ) → k < suc n
      → ¬ Spells (g.next + 5 * k)
  not_later g p n e no_now h zero l =
      let z : g.next + 5 * 0 ≡ g.next = omega arith in λ s. no_now (subst Spells z s)
  not_later g p n e no_now h (suc k) l =
      λ s. h k (omega arith) (subst Spells (same_guess g p k e) s)

  Ends-later :
      (option left : ℕ) (g p : Session) {g' : Session}
      → p.next ≡ g.next + 5
      → p.booted ≡ g.booted
      → ¬ Spells g.next
      → Ends option left p g'
      → Ends option (suc left) g g'
  Ends-later option left g p e b no_now (won m l s before n o) =
      won (suc m) (omega arith) (subst Spells (sym (same_guess g p m e)) s)
        (not_later g p m e no_now before) (omega arith) (rw (← b) o)
  Ends-later option left g p e b no_now (lost none_spells n o) =
      lost (not_later g p left e no_now none_spells) (omega arith) (o ∙ b)

  -- With at least four boot options and a word of five letters the game never faults. It boots the
  -- fourth option exactly if one of the guesses spells the word, after the first that does.
  pub play_lem :
      (options : List ℕ) (option : ℕ) (left : ℕ) (g : Session)
      → get_elem? options 3 ≡ some option
      → 5 ≤ length word
      → Returns (Ends option left g) (play keys options left word g)
  unfolding play
  play_lem options option zero g o h =
      Returns-ok (lost (λ k l. absurd (omega arith)) (omega arith) refl)
  play_lem options option (suc left) g o h =
      let m = play_move_lem g h in
      let p = m.out.session in
      elim (Bool-cases (m.out.reply.pluses == 5)) [
        | inl win ↦
            let right = m.holds.pluses.0 (==→eq _ 5 win) in
            record {
              out = record p { booted = p.booted ++ (option ∷ []) };
              returns = rw (m.returns, win) (unfold boot in rw o);
              holds =
                  won 0 (omega arith) (now g.next right) (λ k l. absurd (omega arith))
                    (omega (arith, m.holds.next)) (rw m.holds.booted);
            }
        | inr on ↦
            let rest = play_lem options option left p o h in
            let wrong : ¬ Spells g.next = λ s. ==→ne _ 5 on (m.holds.pluses.1 s) in
            record {
              out = rest.out;
              returns = rw (m.returns, on) rest.returns;
              holds = Ends-later option left g p m.holds.next m.holds.booted wrong rest.holds;
            }
      ]
