-- ===== src/BootManager/Entries/Reading.antt =====
-- `ParseConfigFile` on a text that is laid out as Text says.
use uefi_game.Prelude.{
  eq-of_get_elem?, drop-cons, ℕ, zero, suc, ◌+◌, ◌-◌, ◌^◌, ◌<◌, ◌≡◌, refl, sym, ap, ◌∙◌, ◌≢◌, inl,
  inr, true, false, ◌&&◌, some, List, [], ◌∷◌, ◌++◌, arith, dec_lt, ℕ_discrete, ltb, ◌==◌,
  if◌then◌else◌, Bool-cases, wrap, wrap_lem, length, get_elem?, set, drop, length-append,
  get_elem?-of_le, lt-of_get_elem?, set-get_elem?, get_elem?-append_left, get_elem?-append_right,
  Result, store_lem, for_loop,
}
use uefi_game.BootManager.Entries.{BootEntry, Parsing, set_field, put_value, end_value, parse_char}
use uefi_game.BootManager.Entries.Bounds.{Value, copy_value_lem}
use uefi_game.BootManager.Entries.Text.{
  Line, line_text, IsKey, IsValue, IsLine, fill_line, converted,
}

get_elem?-drop : (xs : List ℕ) (n k : ℕ) → get_elem? (drop n xs) k ≡ get_elem? xs (n + k)
get_elem?-drop xs zero k = let o : 0 + k ≡ k = omega arith in rw o
get_elem?-drop [] (suc n) k = refl
get_elem?-drop (x ∷ xs) (suc n) k =
    let o : suc n + k ≡ suc (n + k) = omega arith in rw o (get_elem?-drop xs n k)

abbrev pub run :
    List ℕ → (ℕ → List ℕ) → (List ℕ → ℕ → ℕ × List ℕ) → ℕ → List ℕ → Parsing → Result Parsing
run file pool to_unicode i cs p = for_loop (length cs) i (parse_char file pool to_unicode) p

-- Between the values, and inside one.
abbrev pub idle : List BootEntry → ℕ → ℕ → ℕ → ℕ → Parsing
idle es k v prev status = record {
  entries = es;
  cur_struct = k;
  cur_value = v;
  cur_char = 0;
  write = false;
  prev = prev;
  status = status;
}

abbrev pub writing : List BootEntry → ℕ → ℕ → ℕ → ℕ → ℕ → Parsing
writing es k v n prev status = record {
  entries = es;
  cur_struct = k;
  cur_value = v;
  cur_char = n;
  write = true;
  prev = prev;
  status = status;
}

module _ (file : List ℕ) (pool : ℕ → List ℕ) (to_unicode : List ℕ → ℕ → ℕ × List ℕ)
    (small : length file < 2 ^ 63) (room : (n : ℕ) → n < 2 ^ 64 → length (pool n) ≡ n) where
  abbrev go : ℕ → List ℕ → Parsing → Result Parsing
  go = run file pool to_unicode

  copied_lem :
      (value rest elem : List ℕ) (i j : ℕ)
      → i ≡ j + length value
      → drop j file ≡ value ++ b'\n' ∷ rest
      → Value file pool to_unicode small room i (length value) elem
      → elem ≡ value ++ 0 ∷ []
  copied_lem value rest elem i j e at h = eq-of_get_elem? elem (value ++ 0 ∷ []) λ k.
      elim (dec_lt k (length value)) [
        | yes l ↦
            let o : i - length value + k ≡ j + k = omega arith in
            h.chars k l
            ∙ ap (get_elem? file) o
            ∙ sym (get_elem?-drop file j k)
            ∙ ap (λ cs. get_elem? cs k) at
            ∙ get_elem?-append_left value (b'\n' ∷ rest) k l
            ∙ sym (get_elem?-append_left value (0 ∷ []) k l)
        | no ge ↦ elim (ℕ_discrete k (length value)) [
          | yes same ↦
              let o : length value + 0 ≡ k = omega arith in
              ap (get_elem? elem) same
              ∙ h.end
              ∙ sym (get_elem?-append_right value (0 ∷ []) 0)
              ∙ ap (get_elem? (value ++ 0 ∷ [])) o
          | no ne ↦
              get_elem?-of_le elem k (omega (arith, h.size))
              ∙ sym (
                  get_elem?-of_le (value ++ 0 ∷ []) k (omega (arith, length-append value (0 ∷ []))))
        ]
      ]

  module _ (es : List BootEntry) (k v status : ℕ) where
    key_lem :
        (key rest : List ℕ) (i prev : ℕ)
        → IsKey key
        → prev ≢ b':'
        → drop i file ≡ key ++ (b':' ∷ b' ' ∷ rest)
        → (drop (i + length key + 2) file ≡ rest)
          × (go i (key ++ (b':' ∷ b' ' ∷ rest)) (idle es k v prev status)
              ≡ go (i + length key + 2) rest (writing es k v 0 b' ' status))
    unfolding parse_char for_loop
    key_lem [] rest i prev ok_key h e =
        let r = drop-cons file i e in
        let s = drop-cons file (i + 1) r.1 in
        let o : i + 1 + 1 ≡ i + 0 + 2 = omega arith in (rw o at s.1, rw (r.0, s.0, o))
    key_lem (c ∷ cs) rest i prev ok_key h e =
        let r = drop-cons file i e in
        let eol : (c == b'\n') ≡ false = ground arith in
        let sep : (c == b' ' && prev == b':') ≡ false = ground arith in
        let o : i + 1 + length cs + 2 ≡ i + suc (length cs) + 2 = omega arith in
        let ih = key_lem cs rest (i + 1) c ok_key.2 ok_key.1 r.1 in
        (rw o at ih.0, rw (r.0, eol, sep, ← o) ih.1)

    -- The characters of a value, up to its line break.
    value_lem :
        (value rest : List ℕ) (i n prev : ℕ)
        → IsValue prev value
        → prev ≢ b'\n'
        → drop i file ≡ value ++ b'\n' ∷ rest
        → (prev' : ℕ) × (prev' ≢ b'\n')
          × (drop (i + length value) file ≡ b'\n' ∷ rest)
          × (go i (value ++ b'\n' ∷ rest) (writing es k v n prev status)
              ≡ go
                  (i + length value)
                  (b'\n' ∷ rest)
                  (writing es k v (n + length value) prev' status))
    unfolding parse_char for_loop
    value_lem [] rest i n prev ok_value h e =
        let o : i + 0 ≡ i = omega arith in
        let o' : n + 0 ≡ n = omega arith in (prev, h, rw o e, rw (o, o'))
    value_lem (c ∷ cs) rest i n prev ok_value h e =
        let r = drop-cons file i e in
        let eol : (c == b'\n') ≡ false = ground arith in
        let (prev', h', left, ih) = value_lem cs rest (i + 1) (n + 1) c ok_value.2 ok_value.0 r.1 in
        let o : i + 1 + length cs ≡ i + suc (length cs) = omega arith in
        let o' : n + 1 + length cs ≡ n + suc (length cs) = omega arith in
        (prev', h', rw (← o) left, rw (r.0, eol, ok_value.1, ← o, ← o') ih)

    newline_lem :
        (value rest : List ℕ) (i j prev : ℕ) (entry : BootEntry)
        → i ≡ j + length value
        → drop j file ≡ value ++ b'\n' ∷ rest
        → drop i file ≡ b'\n' ∷ rest
        → prev ≢ b'\n'
        → get_elem? es k ≡ some entry
        → go i (b'\n' ∷ rest) (writing es k v (length value) prev status)
          ≡ go (i + 1) rest (
              idle
                (set es k
                  (if ltb v 5 then set_field v (converted to_unicode value).1 entry else entry))
                k
                (v + 1)
                b'\n'
                (converted to_unicode value).0)
    unfolding parse_char for_loop end_value put_value
    newline_lem value rest i j prev entry e start here h at =
        let r = drop-cons file i here in
        let inside = lt-of_get_elem? file i r.0 in
        let c =
          copy_value_lem file pool to_unicode small room i (length value) inside (omega arith) in
        let said = copied_lem value rest c.out i j e start c.holds in
        let narrow : wrap (length value + 1) ≡ length value + 1 = wrap_lem _ (omega arith) in
        let once : (prev == b'\n') ≡ false = ground arith in
        let wrote =
          store_lem es k (set_field v (converted to_unicode value).1 entry)
            (lt-of_get_elem? es k at) in
        elim (Bool-cases (ltb v 5)) [
          | inl few ↦ rw (r.0, once, c.returns, said, narrow, at, few, wrote)
          | inr many ↦ rw (r.0, once, c.returns, said, narrow, at, many, set-get_elem? es k at)
        ]

    pub line_lem :
        (l : Line) (rest : List ℕ) (i prev : ℕ) (entry : BootEntry)
        → IsLine l
        → prev ≢ b':'
        → drop i file ≡ line_text l rest
        → get_elem? es k ≡ some entry
        → (i' : ℕ) × (drop i' file ≡ rest)
          × (go i (line_text l rest) (idle es k v prev status)
              ≡ go i' rest (
                  idle
                    (set es k (fill_line to_unicode v l entry))
                    k
                    (v + 1)
                    b'\n'
                    (converted to_unicode l.value).0))
    line_lem l rest i prev entry good h e at =
        let (there, keyed) = key_lem l.key (l.value ++ b'\n' ∷ rest) i prev good.0 h e in
        let j = i + length l.key + 2 in
        let (prev', h', left, valued) =
          value_lem l.value rest j 0 b' ' good.1 (omega arith) there in
        let o : 0 + length l.value ≡ length l.value = omega arith in
        let ended =
          newline_lem l.value rest (j + length l.value) j prev' entry refl there left h' at in
        (j + length l.value + 1, (drop-cons file _ left).1, keyed ∙ valued ∙ rw o ended)
