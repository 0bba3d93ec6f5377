-- ===== src/BootManager/Numbers/Rows.antt =====
-- A file of numbers, row by row, and a zero byte behind the last row: `sscanf` needs a string.
use uefi_game.Prelude.{
  ℕ, suc, ◌+◌, ◌%◌, ◌^◌, ◌<◌, ◌≡◌, refl, ap, ◌∙◌, ◌≢◌, ◌⊎◌, inl, inr, false, Option, some, List, [],
  ◌∷◌, ◌++◌, arith, ◌==◌, if◌then◌else◌, wrap, length, drop, length-append, Result, ok, for_loop,
  drop-cons, drop-drop, drop_tail,
}
use uefi_game.BootManager.Numbers.{Measuring, no_width, measure_char}

-- A row: its first number and the others, each behind a blank.
pub record Row : Type 0 where
  pub first : ℕ
  pub others : List ℕ

module _ (spell : ℕ → List ℕ) where
  abbrev pub others_text : List ℕ → List ℕ → List ℕ
  others_text [] rest = b'\n' ∷ rest
  others_text (v ∷ vs) rest = b' ' ∷ spell v ++ others_text vs rest

  abbrev pub rows_text : List Row → List ℕ
  rows_text [] = 0 ∷ []
  rows_text (row ∷ rows) = spell row.first ++ others_text row.others (rows_text rows)

-- The numbers of the rows one after the other.
abbrev pub values : List Row → List ℕ
values [] = []
values (row ∷ rows) = row.first ∷ row.others ++ values rows

-- Every row has `w` numbers.
abbrev pub AreWide : ℕ → List Row → Type 0
AreWide w [] = Unit
AreWide w (row ∷ rows) = (length row.others + 1 ≡ w) × AreWide w rows

-- Neither a blank nor a line break.
abbrev pub IsPlain : List ℕ → Type 0
IsPlain [] = Unit
IsPlain (c ∷ cs) = (c ≢ b' ') × (c ≢ b'\n') × IsPlain cs

pub row_tail :
    (file cs rest : List ℕ) (i : ℕ) → drop i file ≡ cs ++ rest → drop (i + length cs) file ≡ rest
row_tail file cs rest i e =
    drop-drop file i (length cs) ∙ ap (drop (length cs)) e ∙ drop_tail cs rest

-- There is a zero byte: the bytes hold a string.
abbrev pub IsTerminated : List ℕ → Type 0
IsTerminated [] = ⊥
IsTerminated (c ∷ cs) = (c ≡ 0) ⊎ IsTerminated cs

pub IsTerminated-append : (cs rest : List ℕ) → IsTerminated rest → IsTerminated (cs ++ rest)
IsTerminated-append [] rest h = h
IsTerminated-append (c ∷ cs) rest h = inr (IsTerminated-append cs rest h)

pub others_text-IsTerminated :
    (spell : ℕ → List ℕ) (vs rest : List ℕ)
    → IsTerminated rest
    → IsTerminated (others_text spell vs rest)
others_text-IsTerminated spell [] rest h = inr h
others_text-IsTerminated spell (v ∷ vs) rest h =
    inr (IsTerminated-append (spell v) _ (others_text-IsTerminated spell vs rest h))

pub rows_text-IsTerminated :
    (spell : ℕ → List ℕ) (rows : List Row) → IsTerminated (rows_text spell rows)
rows_text-IsTerminated spell [] = inl refl
rows_text-IsTerminated spell (row ∷ rows) =
    IsTerminated-append (spell row.first) _
      (others_text-IsTerminated spell row.others _ (rows_text-IsTerminated spell rows))

module _ (sscanf : List ℕ → Result (Option (ℕ × ℕ))) (spell : ℕ → List ℕ) where
  -- In a string, `sscanf` reads a number that is spelled so, up to the blank or the line break behind
  -- it, with a blank or a line break before it or without.
  pub record Reads (v : ℕ) : Type 0 where
    pub plain : IsPlain (spell v)
    pub alone :
        (sep : ℕ) (rest : List ℕ)
        → (sep ≡ b' ') ⊎ (sep ≡ b'\n')
        → IsTerminated rest
        → sscanf (spell v ++ sep ∷ rest) ≡ ok (some (v, length (spell v)))
    pub behind :
        (before sep : ℕ) (rest : List ℕ)
        → (before ≡ b' ') ⊎ (before ≡ b'\n')
        → (sep ≡ b' ') ⊎ (sep ≡ b'\n')
        → IsTerminated rest
        → sscanf (before ∷ spell v ++ sep ∷ rest) ≡ ok (some (v, suc (length (spell v))))

  abbrev pub AllRead : List ℕ → Type 0
  AllRead [] = Unit
  AllRead (v ∷ vs) = Reads v × AllRead vs

  -- The characters of a number change no measure.
  plain_lem :
      (file cs rest : List ℕ) (n i : ℕ) (m : Measuring)
      → IsPlain cs
      → drop i file ≡ cs ++ rest
      → for_loop (length cs + n) i (measure_char file) m
        ≡ for_loop n (i + length cs) (measure_char file) m
  unfolding for_loop measure_char
  plain_lem file [] rest n i m u e =
      let o : i + 0 ≡ i = omega arith in let z : 0 + n ≡ n = omega arith in rw (o, z)
  plain_lem file (c ∷ cs) rest n i m u e =
      let r = drop-cons file i e in
      let blank : (c == b' ') ≡ false = ground arith in
      let eol : (c == b'\n') ≡ false = ground arith in
      let o : i + 1 + length cs ≡ i + suc (length cs) = omega arith in
      let z : suc (length cs) + n ≡ suc (length cs + n) = omega arith in
      rw z (rw (r.0, blank, eol, ← o) (plain_lem file cs rest n (i + 1) m u.2 r.1))

  -- The numbers of a row behind the first one, and its line break.
  others_lem :
      (file rest vs : List ℕ) (i h w k : ℕ)
      → AllRead vs
      → drop i file ≡ others_text spell vs rest
      → k + length vs < 2 ^ 64
      → h + 1 < 2 ^ 64
      → (i' : ℕ) × (drop i' file ≡ rest)
        × (for_loop
              (length (others_text spell vs rest))
              i
              (measure_char file)
              (record { height = h; width = w; cur_width = k })
            ≡ for_loop (length rest) i' (measure_char file) (record {
              height = h + 1;
              width = if w == no_width then k + length vs else w;
              cur_width = 1;
            }))
  unfolding for_loop measure_char wrap
  others_lem file rest [] i h w k u e small low =
      let r = drop-cons file i e in
      let o : k + 0 ≡ k = omega arith in
      let o' : (h + 1) % 2 ^ 64 ≡ h + 1 = omega arith in (i + 1, r.1, rw (r.0, o, o') refl)
  others_lem file rest (v ∷ vs) i h w k u e small low =
      let r = drop-cons file i e in
      let text = others_text spell vs rest in
      let s =
        plain_lem file (spell v) text (length text) (i + 1)
          (record { height = h; width = w; cur_width = k + 1 }) u.0.plain r.1 in
      let (i', left, all) =
        others_lem file rest vs (i + 1 + length (spell v)) h w (k + 1) u.1
          (row_tail file (spell v) text (i + 1) r.1) (omega arith) low in
      let o : (k + 1) % 2 ^ 64 ≡ k + 1 = omega arith in
      let o' : k + suc (length vs) ≡ k + 1 + length vs = omega arith in
      (i', left, rw (r.0, o, length-append (spell v) text, s, o') all)

  abbrev pub RowsRead : List Row → Type 0
  RowsRead [] = Unit
  RowsRead (row ∷ rows) = Reads row.first × AllRead row.others × RowsRead rows

  row_lem :
      (file : List ℕ) (row : Row) (rows : List Row) (i h w : ℕ)
      → RowsRead (row ∷ rows)
      → drop i file ≡ rows_text spell (row ∷ rows)
      → 1 + length row.others < 2 ^ 64
      → h + 1 < 2 ^ 64
      → (i' : ℕ) × (drop i' file ≡ rows_text spell rows)
        × (for_loop
              (length (rows_text spell (row ∷ rows)))
              i
              (measure_char file)
              (record { height = h; width = w; cur_width = 1 })
            ≡ for_loop (length (rows_text spell rows)) i' (measure_char file) (record {
              height = h + 1;
              width = if w == no_width then 1 + length row.others else w;
              cur_width = 1;
            }))
  row_lem file row rows i h w u e small low =
      let text = others_text spell row.others (rows_text spell rows) in
      let (i', left, all) =
        others_lem file (rows_text spell rows) row.others (i + length (spell row.first)) h w 1 u.1
          (row_tail file (spell row.first) text i e) small low in
      (
        i',
        left,
        ap (λ n. for_loop n i (measure_char file) (record { height = h; width = w; cur_width = 1 }))
              (length-append (spell row.first) text)
            ∙ plain_lem file (spell row.first) text (length text) i
                (record { height = h; width = w; cur_width = 1 }) u.0.plain e
            ∙ all,
      )

  -- The rows behind one that has set the width.
  rows_lem :
      (file : List ℕ) (rows : List Row) (i h w : ℕ)
      → RowsRead rows
      → AreWide w rows
      → drop i file ≡ rows_text spell rows
      → w < 2 ^ 63
      → h + length rows < 2 ^ 64
      → for_loop
          (length (rows_text spell rows))
          i
          (measure_char file)
          (record { height = h; width = w; cur_width = 1 })
        ≡ ok (record { height = h + length rows; width = w; cur_width = 1 })
  unfolding for_loop measure_char
  rows_lem file [] i h w u wide e small low =
      let r = drop-cons file i e in let o : h + 0 ≡ h = omega arith in rw (r.0, o)
  rows_lem file (row ∷ rows) i h w u wide e small low =
      let (i', left, all) = row_lem file row rows i h w u e (omega arith) (omega arith) in
      let set : (w == no_width) ≡ false = ground arith in
      let o : h + suc (length rows) ≡ h + 1 + length rows = omega arith in
      all ∙ rw (set, o) (rows_lem file rows i' (h + 1) w u.2 wide.1 left small (omega arith))

  pub measure_lem :
      (row : Row) (rows : List Row) (w : ℕ)
      → RowsRead (row ∷ rows)
      → AreWide w (row ∷ rows)
      → w < 2 ^ 63
      → length (row ∷ rows) < 2 ^ 64
      → for_loop
          (length (rows_text spell (row ∷ rows)))
          0
          (measure_char (rows_text spell (row ∷ rows)))
          (record { height = 0; width = no_width; cur_width = 1 })
        ≡ ok (record { height = length (row ∷ rows); width = w; cur_width = 1 })
  measure_lem row rows w u wide small low =
      let file = rows_text spell (row ∷ rows) in
      let (i', left, all) = row_lem file row rows 0 0 no_width u refl (omega arith) (omega arith) in
      let o : 1 + length row.others ≡ w = omega (arith, wide.0) in
      let o' : 1 + length rows ≡ suc (length rows) = omega arith in
      all
      ∙ rw o (rows_lem file rows i' 1 w u.2 wide.1 left small (omega arith))
      ∙ ap (λ h. ok (record { height = h; width = w; cur_width = 1 })) o'
