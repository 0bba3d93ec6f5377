-- ===== src/BootManager/Entries/Bounds.antt =====
-- `ParseConfigFile` on any file: its accesses and the number of entries.
use uefi_game.Prelude.{
  ℕ, zero, suc, ◌+◌, ◌-◌, ◌*◌, ◌^◌, ◌≤◌, ◌<◌, ◌≡◌, refl, sym, ◌∙◌, inl, inr, Bool, false, ◌&&◌,
  some, List, arith, dec_lt, ltb, ◌==◌, if◌then◌else◌, Bool-cases, wrap, wrap_lem, length,
  get_elem?, set, length-set, get_elem?-of_lt, get_elem?-set_self, get_elem?-set_ne, get_or,
  get_elem?-eq-get_or, ◌>>=◌, Returns, Returns-ok, load, store, store_lem, for_loop,
  for_loop_from_zero,
}
use uefi_game.BootManager.Entries.{
  BootEntry, Counting, Parsing, Config, set_field, put_value, count_char, copy_value, end_value,
  parse_char, parse_config_file,
}

back_lem : (i n j : ℕ) → n ≤ i → j < n → i < 2 ^ 63 → wrap (i + 2 ^ 64 - n + j) ≡ i - n + j
unfolding wrap
back_lem i n j h l small = omega arith

module _ (file : List ℕ) where
  -- The character before index `i`, and the blank lines that end before it.
  abbrev pub before : ℕ → ℕ
  before zero = 0
  before (suc i) = get_or file i 0

  abbrev pub ends_blank : ℕ → Bool
  ends_blank i = get_or file i 0 == b'\n' && before i == b'\n'

  abbrev pub blank_lines : ℕ → ℕ
  blank_lines zero = 0
  blank_lines (suc i) = if ends_blank i then blank_lines i + 1 else blank_lines i

  blank_lines_le : (i d : ℕ) → blank_lines i ≤ blank_lines (d + i)
  blank_lines_le i zero = let e : 0 + i ≡ i = omega arith in rw e (omega arith)
  blank_lines_le i (suc d) =
      let e : suc d + i ≡ suc (d + i) = omega arith in
      let r = blank_lines_le i d in rw e (ground arith)

  before_next : (i : ℕ) → before (i + 1) ≡ get_or file i 0
  before_next i = let e : i + 1 ≡ suc i = omega arith in rw e

  blank_lines_next :
      (i : ℕ) → blank_lines (i + 1) ≡ (if ends_blank i then blank_lines i + 1 else blank_lines i)
  blank_lines_next i = let e : i + 1 ≡ suc i = omega arith in rw e

  record Counted (i : ℕ) (c : Counting) : Type 0 where
    pub last : c.last_char ≡ before i
    pub size : c.size ≡ blank_lines i + 1

  count_round :
      (i : ℕ) (c : Counting)
      → i < length file
      → Counted i c
      → Returns (Counted (i + 1)) (count_char file i c)
  unfolding count_char
  count_round i c h p =
      let here = p.last in
      let so_far = p.size in
      rw (get_elem?-eq-get_or file i 0 h) (
        Returns-ok (record {
          last = sym (before_next i);
          size = rw (here, blank_lines_next i) (ground arith);
        }))

  count_lem :
      Returns
        (Counted (length file))
        (for_loop (length file) 0 (count_char file) (record { last_char = 0; size = 1 }))
  count_lem =
      for_loop_from_zero Counted (count_char file) (length file) count_round
        (record { last_char = 0; size = 1 }) (record { last = refl; size = refl })

  module _ (pool : ℕ → List ℕ) (to_unicode : List ℕ → ℕ → ℕ × List ℕ) (small : length file < 2 ^ 63)
      (room : (n : ℕ) → n < 2 ^ 64 → length (pool n) ≡ n) where
    -- The value that the last `n` characters before index `i` spell.
    record Copied (i n j : ℕ) (elem : List ℕ) : Type 0 where
      pub size : length elem ≡ n + 1
      pub chars : (k : ℕ) → k < j → get_elem? elem k ≡ get_elem? file (i - n + k)

    -- One character more.
    Copied-set :
        (i n j v : ℕ) (elem : List ℕ)
        → get_elem? file (i - n + j) ≡ some v
        → j < length elem
        → Copied i n j elem
        → Copied i n (j + 1) (set elem j v)
    Copied-set i n j v elem there room c = record {
      size = length-set elem j v ∙ c.size;
      chars = λ k h. elim (dec_lt k j) [
        | yes l ↦ get_elem?-set_ne elem j k v (omega arith) ∙ c.chars k l
        | no l ↦
            let e : j ≡ k = omega arith in rw (← e) (get_elem?-set_self elem j v room ∙ sym there)
      ];
    }

    copy_round :
        (i n j : ℕ) (elem : List ℕ)
        → i < length file
        → n ≤ i
        → j < n
        → Copied i n j elem
        → Returns (Copied i n (j + 1)) (load file (wrap (i + 2 ^ 64 - n + j)) >>= store elem j)
    copy_round i n j elem hi hn hj c =
        let at : wrap (i + 2 ^ 64 - n + j) ≡ i - n + j = back_lem i n j hn hj (omega arith) in
        let v = get_or file (i - n + j) 0 in
        let there = get_elem?-eq-get_or file (i - n + j) 0 (omega arith) in
        let room : j < length elem = rw c.size (omega arith) in
        record {
          out = set elem j v;
          returns = rw (at, there) (store_lem elem j v room);
          holds = Copied-set i n j v elem there room c;
        }

    -- The value, with a 0 behind it.
    pub record Value (i n : ℕ) (elem : List ℕ) : Type 0 where
      pub size : length elem ≡ n + 1
      pub chars : (k : ℕ) → k < n → get_elem? elem k ≡ get_elem? file (i - n + k)
      pub end : get_elem? elem n ≡ some 0

    pub copy_value_lem :
        (i n : ℕ)
        → i < length file
        → n ≤ i
        → Returns (Value i n) (copy_value file pool to_unicode i n)
    unfolding copy_value
    copy_value_lem i n hi hn =
        let c =
          for_loop_from_zero (Copied i n) _ n (λ j elem hj c. copy_round i n j elem hi hn hj c)
            (pool (n + 1))
            (record { size = room (n + 1) (omega arith); chars = λ k h. absurd (omega arith) }) in
        let last : n < length c.out = rw (c.holds.size) (omega arith) in
        rw (wrap_lem (n + 1) (omega arith), c.returns)
          (record {
            out = set c.out n 0;
            returns = store_lem c.out n 0 last;
            holds = record {
              size = length-set c.out n 0 ∙ c.holds.size;
              chars = λ k h. get_elem?-set_ne c.out n k 0 (omega arith) ∙ c.holds.chars k h;
              end = get_elem?-set_self c.out n 0 last;
            };
          })

    put_value_lem :
        (v : ℕ) (dest : List ℕ) (k : ℕ) (entries : List BootEntry) (n : ℕ)
        → k < n
        → length entries ≡ n
        → Returns (λ (es : List BootEntry). length es ≡ n) (put_value v dest k entries)
    unfolding put_value
    put_value_lem v dest k entries n h e =
        let room : k < length entries = rw e h in
        let (a, at) = get_elem?-of_lt entries k room in
        elim (Bool-cases (ltb v 5)) [
          | inl few ↦
              rw (few, at)
                (record {
                  out = set entries k (set_field v dest a);
                  returns = store_lem entries k _ room;
                  holds = length-set entries k _ ∙ e;
                })
          | inr many ↦ rw many (Returns-ok e)
        ]

    -- The state before index `i`, of a table with `n` entries.
    record Parsed (n i : ℕ) (p : Parsing) : Type 0 where
      pub size : length p.entries ≡ n
      pub struct : p.cur_struct ≡ blank_lines i
      pub last : p.prev ≡ before i
      pub chars : p.cur_char ≤ i

    end_value_lem :
        (n i : ℕ) (p : Parsing)
        → i < length file
        → blank_lines i < n
        → Parsed n i p
        → Returns
            (λ (q : Parsing).
              (length q.entries ≡ n) × (q.cur_struct ≡ p.cur_struct) × (q.cur_char ≡ 0))
            (end_value file pool to_unicode i p)
    unfolding end_value
    end_value_lem n i p hi hn h =
        let c = copy_value_lem i p.cur_char hi h.chars in
        let struct = h.struct in
        let w =
          put_value_lem p.cur_value (to_unicode c.out (wrap (p.cur_char + 1))).1 p.cur_struct
            p.entries n (omega arith) h.size in
        rw (c.returns, w.returns) (Returns-ok (w.holds, refl, refl))

    parse_round :
        (n i : ℕ) (p : Parsing)
        → i < length file
        → blank_lines i < n
        → Parsed n i p
        → Returns (Parsed n (i + 1)) (parse_char file pool to_unicode i p)
    unfolding parse_char
    parse_round n i p hi hn h =
        let at = get_elem?-eq-get_or file i 0 hi in
        let c = get_or file i 0 in
        let e = end_value_lem n i p hi hn h in
        let last = h.last in
        let struct = h.struct in
        let kept = e.holds.1 in
        let next = blank_lines_next i in
        elim (Bool-cases (c == b'\n')) [
          | inl eol ↦ elim (Bool-cases (p.prev == b'\n')) [
            | inl twice ↦
                rw (at, eol, twice)
                  (Returns-ok (record {
                    size = h.size;
                    struct = ground arith;
                    last = sym (before_next i);
                    chars = ground (arith, h.chars);
                  }))
            | inr once ↦
                rw (at, eol, once, e.returns)
                  (Returns-ok (record {
                    size = e.holds.0;
                    struct = ground arith;
                    last = sym (before_next i);
                    chars = omega (arith, e.holds.2);
                  }))
          ]
          | inr within ↦ elim (Bool-cases (c == b' ' && p.prev == b':')) [
            | inl sep ↦
                rw (at, within, sep)
                  (Returns-ok (record {
                    size = h.size;
                    struct = ground arith;
                    last = sym (before_next i);
                    chars = ground (arith, h.chars);
                  }))
            | inr char ↦
                rw (at, within, char)
                  (Returns-ok (record {
                    size = h.size;
                    struct = ground arith;
                    last = sym (before_next i);
                    chars = ground (arith, h.chars);
                  }))
          ]
        ]

    -- On any file, with room for the entries, no access is out of bounds, and there is one entry more
    -- than there are blank lines.
    pub parse_config_file_bounds :
        (success : ℕ) (zero_pool : ℕ → List BootEntry)
        → length (zero_pool (wrap ((blank_lines (length file) + 1) * 40)))
          ≡ blank_lines (length file) + 1
        → Returns
            (λ (c : Config).
              (c.result_size ≡ blank_lines (length file) + 1) × (length c.result ≡ c.result_size))
            (parse_config_file file pool to_unicode success zero_pool)
    unfolding parse_config_file
    parse_config_file_bounds success zero_pool table =
        let n = blank_lines (length file) + 1 in
        let counted = count_lem in
        let parsed =
          for_loop_from_zero (Parsed n) (parse_char file pool to_unicode) (length file)
            (λ i p hi h.
              parse_round n i p hi
                (let l = blank_lines_le i (length file - i) in
                  let e : length file - i + i ≡ length file = omega arith in
                  let l' : blank_lines i ≤ blank_lines (length file) = rw e at l in omega arith)
                h)
            (record {
              entries = zero_pool (wrap (n * 40));
              cur_struct = 0;
              cur_value = 0;
              cur_char = 0;
              write = false;
              prev = 0;
              status = success;
            })
            (record { size = table; struct = refl; last = refl; chars = omega arith }) in
        rw (counted.returns, counted.holds.size, parsed.returns)
          (Returns-ok (refl, parsed.holds.size))
