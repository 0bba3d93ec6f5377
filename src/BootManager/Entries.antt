-- ===== src/BootManager/Entries.antt =====
-- Application/BootManager2D/src/Config.c, `ParseConfigFile`. `file` is what `ReadFile` has stored.
-- `zero_pool` stands for `AllocateZeroPool`, from a number of bytes to the entries there, `pool` for
-- `AllocatePool` on `CHAR8`s, and `to_unicode` for `AsciiStrToUnicodeStrS`: its status and what it
-- puts in a destination of the given size.
pub mod Bounds
pub mod Text
pub mod Reading
pub mod Size
pub mod RoundTrip
use uefi_game.Prelude.{
  ℕ, zero, suc, ◌+◌, ◌-◌, ◌*◌, ◌^◌, Bool, true, false, ◌&&◌, ◌==◌, ltb, if◌then◌else◌, wrap, List,
  Option, none, some, Result, ok, ◌>>=◌, load, store, length, for_loop,
}

-- `BOOT_ENTRY`; `none` is the null pointer of a cleared entry.
pub record BootEntry : Type 0 where
  pub title : Option (List ℕ)
  pub volume_guid : Option (List ℕ)
  pub loader_name : Option (List ℕ)
  pub icon : Option (List ℕ)
  pub options : Option (List ℕ)

abbrev pub zero_entry : BootEntry
zero_entry = record {
  title = none;
  volume_guid = none;
  loader_name = none;
  icon = none;
  options = none;
}

pub record Counting : Type 0 where
  pub last_char : ℕ
  pub size : ℕ

pub record Parsing : Type 0 where
  pub entries : List BootEntry
  pub cur_struct : ℕ
  pub cur_value : ℕ
  pub cur_char : ℕ
  pub write : Bool
  pub prev : ℕ
  pub status : ℕ

pub record Config : Type 0 where
  pub result : List BootEntry
  pub result_size : ℕ
  pub status : ℕ

-- The `switch` on `cur_value`.
unfoldable pub set_field : ℕ → List ℕ → BootEntry → BootEntry
set_field v dest e =
    if v == 0
    then record e { title = some dest }
    else if v == 1
    then record e { volume_guid = some dest }
    else if v == 2
    then record e { loader_name = some dest }
    else if v == 3
    then record e { icon = some dest }
    else record e { options = some dest }

pub put_value : ℕ → List ℕ → ℕ → List BootEntry → Result (List BootEntry)
put_value v dest k entries =
    let written = load entries k >>= λ e. store entries k (set_field v dest e) in
    if ltb v 5 then written else ok entries

module _ (file : List ℕ) where
  -- One round of the loop that counts the entries.
  pub count_char : ℕ → Counting → Result Counting
  count_char i c = do
    cur ← load file i
    ok (record {
      last_char = cur;
      size = if cur == b'\n' && c.last_char == b'\n' then c.size + 1 else c.size;
    })

  module _ (pool : ℕ → List ℕ) (to_unicode : List ℕ → ℕ → ℕ × List ℕ) where
    -- `cur_elem`, the last `n` characters before index `i`, with a 0 behind them.
    pub copy_value : ℕ → ℕ → Result (List ℕ)
    copy_value i n = do
      copied ←
          for_loop n 0 (λ j cur_elem. load file (wrap (i + 2 ^ 64 - n + j)) >>= store cur_elem j)
            (pool (wrap (n + 1)))
      store copied n 0

    pub end_value : ℕ → Parsing → Result Parsing
    end_value i p = do
      cur_elem ← copy_value i p.cur_char
      let converted = to_unicode cur_elem (wrap (p.cur_char + 1))
      entries ← put_value p.cur_value converted.1 p.cur_struct p.entries
      ok (record p {
        entries = entries;
        cur_value = p.cur_value + 1;
        cur_char = 0;
        write = false;
        status = converted.0;
      })

    -- One round of the loop that reads the values.
    pub parse_char : ℕ → Parsing → Result Parsing
    parse_char i p = do
      cur ← load file i
      let ended = end_value i p
      q ←
          if cur == b'\n' && p.prev == b'\n'
          then ok (record p { cur_struct = p.cur_struct + 1; cur_value = 0 })
          else if cur == b'\n'
          then ended
          else if cur == b' ' && p.prev == b':'
          then ok (record p { write = true })
          else ok (record p { cur_char = if p.write then p.cur_char + 1 else p.cur_char })
      ok (record q { prev = cur })

    -- `success` is `EFI_SUCCESS`.
    unfoldable pub parse_config_file : ℕ → (ℕ → List BootEntry) → Result Config
    unfolding for_loop wrap count_char parse_char end_value copy_value put_value set_field
    parse_config_file success zero_pool = do
      counted ← for_loop (length file) 0 count_char (record { last_char = 0; size = 1 })
      parsed ← for_loop (length file) 0 parse_char (record {
        entries = zero_pool (wrap (counted.size * 40));
        cur_struct = 0;
        cur_value = 0;
        cur_char = 0;
        write = false;
        prev = 0;
        status = success;
      })
      ok (record { result = parsed.entries; result_size = counted.size; status = parsed.status })
