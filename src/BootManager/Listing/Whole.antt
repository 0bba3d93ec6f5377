-- ===== src/BootManager/Listing/Whole.antt =====
-- `ParseTexturesConfigFile` on a whole file.
use uefi_game.Prelude.{
  ℕ, suc, ◌+◌, ◌*◌, ◌^◌, ◌≤◌, ◌<◌, ◌≡◌, refl, sym, ap, ◌∙◌, inl, inr, false, Option, none, some,
  List, [], ◌∷◌, ◌++◌, map, arith, ◌==◌, if◌then◌else◌, Bool-cases, wrap, wrap_lem, length,
  replicate, drop, length-append, ok, for_loop, drop-cons,
}
use uefi_game.Efi.{Efi}
use uefi_game.BootManager.Files.{BootServices, read_file}
use uefi_game.BootManager.Listing.{count_line, list_names, parse_textures_config_file}
use uefi_game.BootManager.Listing.Names.{
  lines_text, IsUnbroken, AreNames, IsName-IsUnbroken, append_nil, AreStrings, name_of, names_lem,
}

-- The line breaks of a text.
breaks : List ℕ → ℕ
breaks [] = 0
breaks (c ∷ cs) = if c == b'\n' then breaks cs + 1 else breaks cs

count_lem :
    (file cs : List ℕ) (i n : ℕ)
    → drop i file ≡ cs
    → for_loop (length cs) i (count_line file) n ≡ ok (n + breaks cs)
unfolding for_loop count_line breaks
count_lem file [] i n e = let o : n + 0 ≡ n = omega arith in rw o
count_lem file (c ∷ cs) i n e =
    let r = drop-cons file i e in
    elim (Bool-cases (c == b'\n')) [
      | inl h ↦
          let o : n + (breaks cs + 1) ≡ n + 1 + breaks cs = omega arith in
          rw (r.0, h, o) (count_lem file cs (i + 1) (n + 1) r.1)
      | inr h ↦ rw (r.0, h) (count_lem file cs (i + 1) n r.1)
    ]

breaks-unbroken : (cs rest : List ℕ) → IsUnbroken cs → breaks (cs ++ rest) ≡ breaks rest
unfolding breaks
breaks-unbroken [] rest u = refl
breaks-unbroken (c ∷ cs) rest u =
    let eol : (c == b'\n') ≡ false = ground arith in rw eol (breaks-unbroken cs rest u.1)

breaks-lines_text :
    (lines : List (List ℕ)) (tail : List ℕ)
    → AreNames lines
    → IsUnbroken tail
    → breaks (lines_text lines tail) ≡ length lines
unfolding breaks lines_text
breaks-lines_text [] tail u v = ap breaks (sym (append_nil tail)) ∙ breaks-unbroken tail [] v
breaks-lines_text (line ∷ lines) tail u v =
    let o : length lines + 1 ≡ suc (length lines) = omega arith in
    breaks-unbroken line (b'\n' ∷ lines_text lines tail) (IsName-IsUnbroken line u.0)
    ∙ ap (λ n. n + 1) (breaks-lines_text lines tail u.1 v)
    ∙ o

lines-fit : (lines : List (List ℕ)) (tail : List ℕ) → length lines ≤ length (lines_text lines tail)
unfolding lines_text
lines-fit [] tail = omega arith
lines-fit (line ∷ lines) tail =
    let e = length-append line (b'\n' ∷ lines_text lines tail) in
    let h = lines-fit lines tail in omega arith

module _ (zero_pool : ℕ → List (Option (List ℕ))) (ascii_str_len : List ℕ → ℕ)
    (to_unicode : List ℕ → ℕ → ℕ × List ℕ) (strings : AreStrings zero_pool ascii_str_len to_unicode)
    (room : (n : ℕ) → zero_pool (8 * n) ≡ replicate n none) where
  list_names_lem :
      (lines : List (List ℕ)) (tail : List ℕ)
      → AreNames lines
      → IsUnbroken tail
      → length (lines_text lines tail) < 2 ^ 60
      → list_names zero_pool ascii_str_len to_unicode
          (lines_text lines tail)
          (length (lines_text lines tail))
        ≡ ok (map (name_of zero_pool ascii_str_len to_unicode) lines, length lines)
  unfolding list_names
  list_names_lem lines tail u v small =
      let text = lines_text lines tail in
      let counted = count_lem text text 0 0 refl in
      let o : 0 + breaks text ≡ length lines = omega (arith, breaks-lines_text lines tail u v) in
      let few : length lines ≤ length text = lines-fit lines tail in
      let pool : zero_pool (wrap (8 * length lines)) ≡ replicate (length lines) none =
        ap zero_pool (wrap_lem (8 * length lines) (omega arith)) ∙ room (length lines) in
      let l =
        names_lem zero_pool ascii_str_len to_unicode strings lines tail 0 text []
          (replicate (length lines) none) 0 u v (omega arith) refl refl refl in
      rw (counted, o, pool, l.returns, l.holds)

  -- `AsciiStrLen` and `AsciiStrToUnicodeStrS` look at a string up to its zero, and the pool has
  -- room. A file is read without an error that has a name in each of its lines, without a zero, and
  -- any characters without a line break behind the last one, fewer than 2 ^ 60 in all. Then the
  -- result has the converted name of every line, in their order, and as many as there are lines.
  pub parse_textures_config_file_lem :
      (efi : Efi) (bs : BootServices) (self : ℕ) (filename : Option (List ℕ)) (status : ℕ)
      (lines : List (List ℕ)) (tail : List ℕ)
      → AreNames lines
      → IsUnbroken tail
      → length (lines_text lines tail) < 2 ^ 60
      → read_file efi bs self filename
        ≡ ok (record {
          status = status;
          contents = some (lines_text lines tail, length (lines_text lines tail));
        })
      → efi.efi_error status ≡ false
      → parse_textures_config_file zero_pool ascii_str_len to_unicode efi bs self filename
        ≡ ok (record {
          status = status;
          textures = some (map (name_of zero_pool ascii_str_len to_unicode) lines, length lines);
        })
  unfolding parse_textures_config_file
  parse_textures_config_file_lem efi bs self filename status lines tail u v small read fine =
      rw (read, list_names_lem lines tail u v small, fine) refl
