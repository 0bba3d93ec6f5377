-- ===== src/BootManager/Entries/Size.antt =====
-- The first loop of `ParseConfigFile` on a text that is laid out as Text says.
use uefi_game.Prelude.{
  drop-cons, ℕ, ◌+◌, ◌≡◌, refl, ◌∙◌, ◌≢◌, false, List, [], ◌∷◌, ◌++◌, arith, ◌==◌, if◌then◌else◌,
  length, drop, Result, Returns, Returns-ok, Returns-cong, Returns-map, for_loop,
}
use uefi_game.BootManager.Entries.{Counting, count_char}
use uefi_game.BootManager.Entries.Text.{
  Line, line_text, lines_text, config_text, IsKey, IsValue, IsLine, AreLines, AreEntries,
}

abbrev NoBreak : List ℕ → Type 0
NoBreak [] = Unit {0}
NoBreak (c ∷ cs) = (c ≢ b'\n') × NoBreak cs

IsKey-NoBreak : (key : List ℕ) → IsKey key → NoBreak key
IsKey-NoBreak [] h = tt
IsKey-NoBreak (c ∷ cs) h = (h.0, IsKey-NoBreak cs h.2)

IsValue-NoBreak : (prev : ℕ) (value : List ℕ) → IsValue prev value → NoBreak value
IsValue-NoBreak prev [] h = tt
IsValue-NoBreak prev (c ∷ cs) h = (h.0, IsValue-NoBreak c cs h.2)

module _ (file : List ℕ) where
  abbrev pub counting : ℕ → ℕ → Counting
  counting prev size = record { last_char = prev; size = size }

  abbrev pub tally : ℕ → List ℕ → Counting → Result Counting
  tally i cs c = for_loop (length cs) i (count_char file) c

  quiet_lem :
      (cs rest : List ℕ) (i prev size : ℕ)
      → NoBreak cs
      → drop i file ≡ cs ++ rest
      → (i' prev' : ℕ) × (drop i' file ≡ rest)
        × (prev ≢ b'\n' → prev' ≢ b'\n')
        × (tally i (cs ++ rest) (counting prev size) ≡ tally i' rest (counting prev' size))
  unfolding count_char for_loop
  quiet_lem [] rest i prev size h e = (i, prev, e, (λ g. g), refl)
  quiet_lem (c ∷ cs) rest i prev size h e =
      let r = drop-cons file i e in
      let eol : (c == b'\n') ≡ false = ground arith in
      let (i', prev', left, keeps, ih) = quiet_lem cs rest (i + 1) c size h.1 r.1 in
      (i', prev', left, (λ g. keeps h.0), rw (r.0, eol) ih)

  separator_lem :
      (rest : List ℕ) (i prev size : ℕ)
      → drop i file ≡ b':' ∷ b' ' ∷ rest
      → (drop (i + 1 + 1) file ≡ rest)
        × (tally i (b':' ∷ b' ' ∷ rest) (counting prev size)
            ≡ tally (i + 1 + 1) rest (counting b' ' size))
  unfolding count_char for_loop
  separator_lem rest i prev size e =
      let r = drop-cons file i e in let s = drop-cons file (i + 1) r.1 in (s.1, rw (r.0, s.0))

  break_lem :
      (rest : List ℕ) (i prev size : ℕ)
      → drop i file ≡ b'\n' ∷ rest
      → tally i (b'\n' ∷ rest) (counting prev size)
        ≡ tally (i + 1) rest (counting b'\n' (if prev == b'\n' then size + 1 else size))
  unfolding count_char for_loop
  break_lem rest i prev size e = rw (drop-cons file i e).0

  tally-line :
      (l : Line) (rest : List ℕ) (i prev size : ℕ)
      → IsLine l
      → drop i file ≡ line_text l rest
      → (i' : ℕ) × (drop i' file ≡ rest)
        × (tally i (line_text l rest) (counting prev size) ≡ tally i' rest (counting b'\n' size))
  tally-line l rest i prev size good e =
      let (j, p, at, _, keyed) =
        quiet_lem l.key (b':' ∷ b' ' ∷ (l.value ++ b'\n' ∷ rest)) i prev size
          (IsKey-NoBreak l.key good.0) e in
      let s = separator_lem (l.value ++ b'\n' ∷ rest) j p size at in
      let (k, q, at', keeps, valued) =
        quiet_lem l.value (b'\n' ∷ rest) (j + 1 + 1) b' ' size (IsValue-NoBreak b' ' l.value good.1)
          s.0 in
      let apart = keeps (omega arith) in
      let once : (q == b'\n') ≡ false = ground arith in
      (
        k + 1,
        (drop-cons file k at').1,
        keyed ∙ s.1 ∙ valued ∙ rw once at (break_lem rest k q size at'),
      )

  tally-lines :
      (ls : List Line) (rest : List ℕ) (i size : ℕ)
      → AreLines ls
      → drop i file ≡ lines_text ls rest
      → (i' : ℕ) × (drop i' file ≡ rest)
        × (tally i (lines_text ls rest) (counting b'\n' size) ≡ tally i' rest (counting b'\n' size))
  tally-lines [] rest i size good e = (i, e, refl)
  tally-lines (l ∷ ls) rest i size good e =
      let (j, at, one) = tally-line l (lines_text ls rest) i b'\n' size good.0 e in
      let (k, at', more) = tally-lines ls rest j size good.1 at in (k, at', one ∙ more)

  pub tally-config :
      (l : Line) (ls : List Line) (es : List (Line × List Line)) (i prev size : ℕ)
      → IsLine l
      → AreLines ls
      → AreEntries es
      → drop i file ≡ config_text (l, ls) es
      → Returns
          (λ (c : Counting). c.size ≡ size + length es)
          (tally i (config_text (l, ls) es) (counting prev size))
  unfolding for_loop
  tally-config l ls [] i prev size one more rest e =
      let (j, at, a) = tally-line l (lines_text ls []) i prev size one e in
      let (k, at', b) = tally-lines ls [] j size more at in
      Returns-cong (a ∙ b) (Returns-ok (omega arith))
  tally-config l ls ((m, ms) ∷ es) i prev size one more rest e =
      let tail = b'\n' ∷ config_text (m, ms) es in
      let (j, at, a) = tally-line l (lines_text ls tail) i prev size one e in
      let (k, at', b) = tally-lines ls tail j size more at in
      let c = break_lem (config_text (m, ms) es) k b'\n' size at' in
      let next = (drop-cons file k at').1 in
      Returns-cong (a ∙ b ∙ c) (
        Returns-map (tally-config m ms es (k + 1) b'\n' (size + 1) rest.0 rest.1 rest.2 next)
          (λ d h. omega arith))
