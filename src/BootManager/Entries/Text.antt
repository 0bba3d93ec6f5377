-- ===== src/BootManager/Entries/Text.antt =====
-- The text of a configuration file with one line `key: value` for each value, and a blank line between
-- two entries.
use uefi_game.Prelude.{
  length, ℕ, ◌+◌, ◌≡◌, ◌≢◌, false, ◌&&◌, List, [], ◌∷◌, ◌++◌, ltb, ◌==◌, if◌then◌else◌,
}
use uefi_game.BootManager.Entries.{BootEntry, zero_entry, set_field}

pub record Line : Type 0 where
  pub key : List ℕ
  pub value : List ℕ

abbrev pub line_text : Line → List ℕ → List ℕ
line_text l rest = l.key ++ (b':' ∷ b' ' ∷ (l.value ++ b'\n' ∷ rest))

abbrev pub lines_text : List Line → List ℕ → List ℕ
lines_text [] rest = rest
lines_text (l ∷ ls) rest = line_text l (lines_text ls rest)

-- An entry has at least one line.
abbrev pub config_text : Line × List Line → List (Line × List Line) → List ℕ
config_text (l, ls) [] = line_text l (lines_text ls [])
config_text (l, ls) (e ∷ es) = line_text l (lines_text ls (b'\n' ∷ config_text e es))

-- No line break and no colon.
abbrev pub IsKey : List ℕ → Type 0
IsKey [] = Unit {0}
IsKey (c ∷ cs) = (c ≢ b'\n') × (c ≢ b':') × IsKey cs

-- No line break, and no blank behind a colon; `prev` is the character before it.
abbrev pub IsValue : ℕ → List ℕ → Type 0
IsValue prev [] = Unit {0}
IsValue prev (c ∷ cs) = (c ≢ b'\n') × ((c == b' ' && prev == b':') ≡ false) × IsValue c cs

abbrev pub IsLine : Line → Type 0
IsLine l = IsKey l.key × IsValue b' ' l.value

abbrev pub AreLines : List Line → Type 0
AreLines [] = Unit {0}
AreLines (l ∷ ls) = IsLine l × AreLines ls

abbrev pub AreEntries : List (Line × List Line) → Type 0
AreEntries [] = Unit {0}
AreEntries ((l, ls) ∷ es) = IsLine l × AreLines ls × AreEntries es

-- `to_unicode` stands for `AsciiStrToUnicodeStrS`, as in the parent.
module _ (to_unicode : List ℕ → ℕ → ℕ × List ℕ) where
  -- The status and the text that the conversion makes of a value.
  abbrev pub converted : List ℕ → ℕ × List ℕ
  converted value = to_unicode (value ++ 0 ∷ []) (length value + 1)

  -- What the lines from the one with index `v` on make of an entry.
  abbrev pub fill_line : ℕ → Line → BootEntry → BootEntry
  fill_line v l e = if ltb v 5 then set_field v (converted l.value).1 e else e

  abbrev pub fill_lines : ℕ → List Line → BootEntry → BootEntry
  fill_lines v [] e = e
  fill_lines v (l ∷ ls) e = fill_lines (v + 1) ls (fill_line v l e)

  abbrev pub entry_of : Line × List Line → BootEntry
  entry_of (l, ls) = fill_lines 1 ls (fill_line 0 l zero_entry)

  -- The status of the last conversion.
  abbrev pub last_status : ℕ → List Line → ℕ
  last_status status [] = status
  last_status status (l ∷ ls) = last_status (converted l.value).0 ls

  abbrev pub final_status : ℕ → List (Line × List Line) → ℕ
  final_status status [] = status
  final_status status ((l, ls) ∷ es) = final_status (last_status status (l ∷ ls)) es
