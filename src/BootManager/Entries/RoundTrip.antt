-- ===== src/BootManager/Entries/RoundTrip.antt =====
-- `ParseConfigFile` reads back the entries of a text that is laid out as Text says.
use uefi_game.Prelude.{
  drop-cons, ℕ, suc, ◌+◌, ◌*◌, ◌^◌, ◌<◌, ◌≡◌, refl, ap, ◌∙◌, ◌≢◌, some, List, [], ◌∷◌, ◌++◌, map,
  arith, wrap, wrap_lem, length, replicate, get_elem?, set, drop, length-append, lt-of_get_elem?,
  get_elem?-set_self, set-get_elem?, set-set, Result, ok, Returns, Returns-ok, Returns-cong,
  Returns-map, for_loop,
}
use mathlib.Core.List.{append-nil, append_assoc}
use uefi_game.BootManager.Entries.{BootEntry, zero_entry, Parsing, parse_char, parse_config_file}
use uefi_game.BootManager.Entries.Reading.{run, idle, line_lem}
use uefi_game.BootManager.Entries.Size.{tally-config}
use uefi_game.BootManager.Entries.Text.{
  Line, line_text, lines_text, config_text, IsLine, AreLines, AreEntries, fill_line, fill_lines,
  entry_of, converted, last_status, final_status,
}

module _ {ℓ} {A : Type ℓ} where
  get_elem?-middle : (xs ys : List A) (a : A) → get_elem? (xs ++ a ∷ ys) (length xs) ≡ some a
  get_elem?-middle [] ys a = refl
  get_elem?-middle (x ∷ xs) ys a = get_elem?-middle xs ys a

  set-middle : (xs ys : List A) (a b : A) → set (xs ++ a ∷ ys) (length xs) b ≡ (xs ++ b ∷ []) ++ ys
  set-middle [] ys a b = refl
  set-middle (x ∷ xs) ys a b = ap (◌∷◌ x) (set-middle xs ys a b)

module _ (file : List ℕ) (pool : ℕ → List ℕ) (to_unicode : List ℕ → ℕ → ℕ × List ℕ)
    (small : length file < 2 ^ 56) (room : (n : ℕ) → n < 2 ^ 64 → length (pool n) ≡ n) where
  small' : length file < 2 ^ 63
  small' = omega arith

  abbrev go : ℕ → List ℕ → Parsing → Result Parsing
  go = run file pool to_unicode

  lines_lem :
      (ls : List Line) (rest : List ℕ) (i : ℕ) (es : List BootEntry) (k v status : ℕ)
      (entry : BootEntry)
      → AreLines ls
      → drop i file ≡ lines_text ls rest
      → get_elem? es k ≡ some entry
      → (i' v' : ℕ) × (drop i' file ≡ rest)
        × (go i (lines_text ls rest) (idle es k v b'\n' status)
            ≡ go i' rest (
                idle
                  (set es k (fill_lines to_unicode v ls entry))
                  k
                  v'
                  b'\n'
                  (last_status to_unicode status ls)))
  lines_lem [] rest i es k v status entry good e at = (i, v, e, rw (set-get_elem? es k at))
  lines_lem (l ∷ ls) rest i es k v status entry good e at =
      let (j, left, one) =
        line_lem file pool to_unicode small' room es k v status l (lines_text ls rest) i b'\n' entry
          good.0 (omega arith) e at in
      let entry' = fill_line to_unicode v l entry in
      let inside = lt-of_get_elem? es k at in
      let (i', v', left', more) =
        lines_lem ls rest j (set es k entry') k (v + 1) (converted to_unicode l.value).0 entry'
          good.1 left (get_elem?-set_self es k entry' inside) in
      (
        i',
        v',
        left',
        rw (set-set es k entry' (fill_lines to_unicode (v + 1) ls entry')) at (one ∙ more),
      )

  -- A whole entry, whose place in the table comes behind `done`.
  entry_lem :
      (l : Line) (ls : List Line) (rest : List ℕ) (i prev status : ℕ) (done more : List BootEntry)
      → IsLine l
      → AreLines ls
      → prev ≢ b':'
      → drop i file ≡ line_text l (lines_text ls rest)
      → (i' v' : ℕ) × (drop i' file ≡ rest)
        × (go i
              (line_text l (lines_text ls rest))
              (idle (done ++ zero_entry ∷ more) (length done) 0 prev status)
            ≡ go i' rest (
                idle
                  ((done ++ entry_of to_unicode (l, ls) ∷ []) ++ more)
                  (length done)
                  v'
                  b'\n'
                  (last_status to_unicode status (l ∷ ls))))
  entry_lem l ls rest i prev status done more one all h e =
      let es = done ++ zero_entry ∷ more in
      let at = get_elem?-middle done more zero_entry in
      let k = length done in
      let inside = lt-of_get_elem? es k at in
      let (j, left, a) =
        line_lem file pool to_unicode small' room es k 0 status l (lines_text ls rest) i prev
          zero_entry one h e at in
      let first = fill_line to_unicode 0 l zero_entry in
      let (i', v', left', b) =
        lines_lem ls rest j (set es k first) k 1 (converted to_unicode l.value).0 first all left
          (get_elem?-set_self es k first inside) in
      (
        i',
        v',
        left',
        rw
            (
              set-set es k first (fill_lines to_unicode 1 ls first),
              set-middle done more zero_entry (fill_lines to_unicode 1 ls first),
            )
            at (a ∙ b),
      )

  blank_lem :
      (rest : List ℕ) (i : ℕ) (es : List BootEntry) (k v status : ℕ)
      → get_elem? file i ≡ some b'\n'
      → go i (b'\n' ∷ rest) (idle es k v b'\n' status)
        ≡ go (i + 1) rest (idle es (k + 1) 0 b'\n' status)
  unfolding parse_char for_loop
  blank_lem rest i es k v status at = rw at

  -- The entries from one on, whose places come behind `done`.
  entries_lem :
      (l : Line) (ls : List Line) (es : List (Line × List Line)) (i prev status : ℕ)
      (done : List BootEntry)
      → IsLine l
      → AreLines ls
      → AreEntries es
      → prev ≢ b':'
      → drop i file ≡ config_text (l, ls) es
      → Returns
          (λ (p : Parsing).
            (p.entries ≡ done ++ map (entry_of to_unicode) ((l, ls) ∷ es))
            × (p.status ≡ final_status to_unicode status ((l, ls) ∷ es)))
          (go i
            (config_text (l, ls) es)
            (idle (done ++ replicate (suc (length es)) zero_entry) (length done) 0 prev status))
  unfolding for_loop
  entries_lem l ls [] i prev status done one all rest h e =
      let (j, v, left, a) = entry_lem l ls [] i prev status done [] one all h e in
      Returns-cong a (Returns-ok (append-nil _, refl))
  entries_lem l ls ((m, ms) ∷ es) i prev status done one all rest h e =
      let more = replicate (suc (length es)) zero_entry in
      let after = config_text (m, ms) es in
      let entry = entry_of to_unicode (l, ls) in
      let (j, v, left, a) = entry_lem l ls (b'\n' ∷ after) i prev status done more one all h e in
      let r = drop-cons file j left in
      let status' = last_status to_unicode status (l ∷ ls) in
      let b = blank_lem after j ((done ++ entry ∷ []) ++ more) (length done) v status' r.0 in
      let o : length (done ++ entry ∷ []) ≡ length done + 1 =
        omega (arith, length-append done (entry ∷ [])) in
      Returns-cong (a ∙ b) (
        Returns-map
          (rw o at (
            entries_lem m ms es (j + 1) b'\n' status' (done ++ entry ∷ []) rest.0 rest.1 rest.2
              (omega arith) r.1))
          (λ p g. (g.0 ∙ append_assoc done (entry ∷ []) _, g.1)))

  -- A configuration file that is laid out line by line is read without an access out of bounds: the
  -- entries of the result are those of the text, in their order, each with the first five values of
  -- its lines, and the status is that of the last conversion.
  pub parse_config_file_lem :
      (success : ℕ) (zero_pool : ℕ → List BootEntry) (l : Line) (ls : List Line)
      (es : List (Line × List Line))
      → IsLine l
      → AreLines ls
      → AreEntries es
      → file ≡ config_text (l, ls) es
      → zero_pool ((length es + 1) * 40) ≡ replicate (length es + 1) zero_entry
      → length es + 1 < 2 ^ 56
      → parse_config_file file pool to_unicode success zero_pool
        ≡ ok (record {
          result = map (entry_of to_unicode) ((l, ls) ∷ es);
          result_size = length es + 1;
          status = final_status to_unicode success ((l, ls) ∷ es);
        })
  unfolding parse_config_file
  parse_config_file_lem success zero_pool l ls es one all rest e table few =
      let size : length file ≡ length (config_text (l, ls) es) = ap length e in
      let c = tally-config file l ls es 0 0 1 one all rest e in
      let p = entries_lem l ls es 0 0 success [] one all rest (omega arith) e in
      let o : 1 + length es ≡ length es + 1 = omega arith in
      let o' : length es + 1 ≡ suc (length es) = omega arith in
      let bytes : wrap ((length es + 1) * 40) ≡ (length es + 1) * 40 = wrap_lem _ (omega arith) in
      rw (size, c.returns, c.holds, o, bytes, table, o', p.returns, p.holds.0, p.holds.1)
