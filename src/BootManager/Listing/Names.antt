-- ===== src/BootManager/Listing/Names.antt =====
-- The names of the textures, line by line.
use uefi_game.Prelude.{
  ℕ, suc, ◌+◌, ◌^◌, ◌<◌, ◌≡◌, refl, sym, ap, ◌∙◌, ◌≢◌, false, Option, none, some, List, [], ◌∷◌,
  ◌++◌, map, arith, ◌==◌, wrap_lem, length, replicate, set, drop, length-append, length-set,
  lt-of_get_elem?, ok, Returns, Returns-ok, Returns-cong, Returns-map, store_lem, for_loop,
  drop-cons, drop-drop, drop-set, set-append, drop-append, drop_tail, append_step,
}
use uefi_game.BootManager.Listing.{Listing, end_name, list_char}

-- The file: the lines, each with its line break, and what stands behind the last one.
unfoldable pub lines_text : List (List ℕ) → List ℕ → List ℕ
lines_text [] tail = tail
lines_text (line ∷ lines) tail = line ++ b'\n' ∷ lines_text lines tail

-- No line break.
abbrev pub IsUnbroken : List ℕ → Type 0
IsUnbroken [] = Unit
IsUnbroken (c ∷ cs) = (c ≢ b'\n') × IsUnbroken cs

-- No line break and no zero.
abbrev pub IsName : List ℕ → Type 0
IsName [] = Unit
IsName (c ∷ cs) = (c ≢ b'\n') × (c ≢ 0) × IsName cs

abbrev pub AreNames : List (List ℕ) → Type 0
AreNames [] = Unit
AreNames (line ∷ lines) = IsName line × AreNames lines

pub IsName-IsUnbroken : (line : List ℕ) → IsName line → IsUnbroken line
IsName-IsUnbroken [] h = h
IsName-IsUnbroken (c ∷ cs) h = (h.0, IsName-IsUnbroken cs h.2)

pub append_nil : (xs : List ℕ) → xs ++ [] ≡ xs
append_nil [] = refl
append_nil (x ∷ xs) = ap (◌∷◌ x) (append_nil xs)

module _ (zero_pool : ℕ → List (Option (List ℕ))) (ascii_str_len : List ℕ → ℕ)
    (to_unicode : List ℕ → ℕ → ℕ × List ℕ) where
  -- `AsciiStrLen` and `AsciiStrToUnicodeStrS` look at a string up to its zero alone.
  pub record AreStrings : Type 0 where
    pub measured :
        (name rest : List ℕ) → IsName name → ascii_str_len (name ++ 0 ∷ rest) ≡ length name
    pub converted :
        (name rest : List ℕ) (n : ℕ)
        → IsName name
        → to_unicode (name ++ 0 ∷ rest) n ≡ to_unicode (name ++ 0 ∷ []) n

  -- The name that a line gives.
  abbrev pub name_of : List ℕ → Option (List ℕ)
  name_of line = some (to_unicode (line ++ 0 ∷ []) (length line + 1)).1

  -- The characters of a line.
  scan_lem :
      (cs rest : List ℕ) (n i : ℕ) (l : Listing)
      → IsUnbroken cs
      → drop i l.file_data ≡ cs ++ rest
      → for_loop (length cs + n) i (list_char zero_pool ascii_str_len to_unicode) l
        ≡ for_loop n (i + length cs) (list_char zero_pool ascii_str_len to_unicode) l
  unfolding for_loop list_char
  scan_lem [] rest n i l u e =
      let o : i + 0 ≡ i = omega arith in let z : 0 + n ≡ n = omega arith in rw (o, z)
  scan_lem (c ∷ cs) rest n i l u e =
      let r = drop-cons l.file_data i e in
      let eol : (c == b'\n') ≡ false = ground arith in
      let o : i + 1 + length cs ≡ i + suc (length cs) = omega arith in
      let z : suc (length cs) + n ≡ suc (length cs + n) = omega arith in
      rw z (rw (r.0, eol, ← o) (scan_lem cs rest n (i + 1) l u.1 r.1))

  module _ (strings : AreStrings) where
    line_lem :
        (line rest : List ℕ) (start : ℕ) (file : List ℕ) (before after : List (Option (List ℕ)))
        → IsName line
        → length line < 2 ^ 63
        → drop start file ≡ line ++ b'\n' ∷ rest
        → list_char zero_pool ascii_str_len to_unicode (start + length line) (record {
          file_data = file;
          textures_files = before ++ none ∷ after;
          cur_texture = length before;
          cur_file_name_start = start;
        })
          ≡ ok (record {
            file_data = set file (start + length line) 0;
            textures_files = before ++ name_of line ∷ after;
            cur_texture = length before + 1;
            cur_file_name_start = start + length line + 1;
          })
    unfolding list_char end_name
    line_lem line rest start file before after u small e =
        let there : drop (start + length line) file ≡ b'\n' ∷ rest =
          drop-drop file start (length line)
          ∙ ap (drop (length line)) e
          ∙ drop_tail line (b'\n' ∷ rest) in
        let at = (drop-cons file (start + length line) there).0 in
        let text : drop start (set file (start + length line) 0) ≡ line ++ 0 ∷ rest =
          drop-set file start (length line) 0
          ∙ ap (λ t. set t (length line) 0) e
          ∙ set-append line rest b'\n' 0 in
        rw (
          at,
          store_lem file (start + length line) 0 (lt-of_get_elem? file (start + length line) at),
          text,
          strings.measured line rest u,
          wrap_lem (length line + 1) (omega arith),
          strings.converted line rest (length line + 1) u,
          store_lem (before ++ none ∷ after) (length before) (name_of line)
              (omega (arith, length-append before (none ∷ after))),
          set-append before after none (name_of line),
        )

    pub names_lem :
        (lines : List (List ℕ)) (tail : List ℕ) (start : ℕ) (file : List ℕ)
        (before names : List (Option (List ℕ))) (k : ℕ)
        → AreNames lines
        → IsUnbroken tail
        → length file < 2 ^ 63
        → drop start file ≡ lines_text lines tail
        → names ≡ before ++ replicate (length lines) none
        → k ≡ length before
        → Returns
            (λ (l : Listing). l.textures_files ≡ before ++ map name_of lines)
            (for_loop
              (length (lines_text lines tail))
              start
              (list_char zero_pool ascii_str_len to_unicode)
              (record {
                file_data = file;
                textures_files = names;
                cur_texture = k;
                cur_file_name_start = start;
              }))
    unfolding for_loop lines_text
    names_lem [] tail start file before names k u v small e f g =
        let l : Listing = record {
          file_data = file;
          textures_files = names;
          cur_texture = k;
          cur_file_name_start = start;
        } in
        let o : length tail + 0 ≡ length tail = omega arith in
        let scanned = scan_lem tail [] 0 start l v (e ∙ sym (append_nil tail)) in
        Returns-cong
          (ap (λ n. for_loop n start (list_char zero_pool ascii_str_len to_unicode) l) (sym o)
            ∙ scanned)
          (Returns-ok f)
    names_lem (line ∷ lines) tail start file before names k u v small e f g =
        let text = lines_text lines tail in
        let l : Listing = record {
          file_data = file;
          textures_files = before ++ none ∷ replicate (length lines) none;
          cur_texture = length before;
          cur_file_name_start = start;
        } in
        let there : drop (start + length line) file ≡ b'\n' ∷ text =
          drop-drop file start (length line)
          ∙ ap (drop (length line)) e
          ∙ drop_tail line (b'\n' ∷ text) in
        let inside =
          lt-of_get_elem? file (start + length line)
            (drop-cons file (start + length line) there).0 in
        let scanned =
          scan_lem line (b'\n' ∷ text) (suc (length text)) start l (IsName-IsUnbroken line u.0) e in
        let ended =
          line_lem line text start file before (replicate (length lines) none) u.0 (omega arith)
            e in
        let behind : drop (start + length line + 1) (set file (start + length line) 0) ≡ text =
          let o : start + length line + 1 ≡ start + (length line + 1) = omega arith in
          ap (λ n. drop n (set file (start + length line) 0)) o
          ∙ drop-drop (set file (start + length line) 0) start (length line + 1)
          ∙ ap (drop (length line + 1)) (
              drop-set file start (length line) 0
              ∙ ap (λ t. set t (length line) 0) e
              ∙ set-append line text b'\n' 0)
          ∙ drop-append line text 0 in
        let rest =
          names_lem lines tail (start + length line + 1) (set file (start + length line) 0)
            (before ++ name_of line ∷ []) (before ++ name_of line ∷ replicate (length lines) none)
            (length before + 1) u.1 v (omega (arith, length-set file (start + length line) 0))
            behind (append_step before (name_of line) (replicate (length lines) none))
            (omega (arith, length-append before (name_of line ∷ []))) in
        rw (f, g, length-append line (b'\n' ∷ text), scanned, ended)
          (Returns-map rest
            (λ t h. h ∙ sym (append_step before (name_of line) (map name_of lines))))
