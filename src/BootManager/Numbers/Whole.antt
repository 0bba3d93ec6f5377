-- ===== src/BootManager/Numbers/Whole.antt =====
-- `ParseMazeConfigFile` on a whole file.
use uefi_game.Prelude.{
  ℕ, suc, ◌+◌, ◌*◌, ◌^◌, ◌≤◌, ◌<◌, ◌≡◌, refl, sym, ap, ◌∙◌, false, Option, some, List, [], ◌∷◌,
  ◌++◌, arith, wrap, wrap_lem, length, replicate, length-append, Result, ok, Returns, for_loop,
}
use uefi_game.Efi.{Efi}
use uefi_game.BootManager.Files.{BootServices, read_file}
use uefi_game.BootManager.Numbers.{scan_number, parse_numbers, parse_maze_config_file}
use uefi_game.BootManager.Numbers.Rows.{
  Row, others_text, rows_text, values, AreWide, row_tail, RowsRead, measure_lem,
  rows_text-IsTerminated,
}
use uefi_game.BootManager.Numbers.Scan.{others_head, Scanned, go_on, numbers_lem}

length-values : (w : ℕ) (rows : List Row) → AreWide w rows → length (values rows) ≡ w * length rows
length-values w [] h = omega arith
length-values w (row ∷ rows) h =
    let e = length-append row.others (values rows) in
    let f = length-values w rows h.1 in let g = h.0 in grind arith

times-bounds : (a b n : ℕ) → (a + 1) * suc b < n → (a + 1 < n) × (suc b < n)
times-bounds a b n h =
    let e : (a + 1) * suc b ≡ a * b + a + suc b = grind arith in
    let f : 0 ≤ a * b = omega arith in (omega arith, omega arith)

module _ (sscanf : List ℕ → Result (Option (ℕ × ℕ))) (spell : ℕ → List ℕ) where
  all_lem :
      (row : Row) (rows : List Row)
      → RowsRead sscanf spell (row ∷ rows)
      → Returns (Scanned sscanf spell (values (row ∷ rows))) (
          for_loop
            (length (values (row ∷ rows)))
            0
            (scan_number sscanf (rows_text spell (row ∷ rows)))
            (record {
              numbers = replicate (length (values (row ∷ rows))) 0;
              cur_buffer = 0;
              failed = false;
            }))
  all_lem row rows u =
      let (sep, rest, blank, there, ends) =
        others_head sscanf spell row.others (rows_text spell rows)
          (rows_text-IsTerminated spell rows) in
      let text = others_text spell row.others (rows_text spell rows) in
      let file = rows_text spell (row ∷ rows) in
      let m = length (row.others ++ values rows) in
      let read = ap (λ t. sscanf (spell row.first ++ t)) there ∙ u.0.alone sep rest blank ends in
      let next =
        numbers_lem sscanf spell row.others rows file (row.first ∷ []) (row.first ∷ replicate m 0)
          (0 + length (spell row.first)) 1 m u.1 u.2 (row_tail file (spell row.first) text 0 refl)
          (length-append row.others (values rows)) refl refl in
      go_on sscanf spell file [] (replicate m 0) (values (row ∷ rows)) 0 row.first
        (length (spell row.first)) m 0 file (0 ∷ replicate m 0) refl refl refl read next

  module _ (zero_pool : ℕ → List ℕ) (room : (n : ℕ) → zero_pool (8 * n) ≡ replicate n 0) where
    parse_numbers_lem :
        (row : Row) (rows : List Row) (w : ℕ)
        → RowsRead sscanf spell (row ∷ rows)
        → AreWide w (row ∷ rows)
        → w * length (row ∷ rows) < 2 ^ 60
        → parse_numbers sscanf zero_pool
            (rows_text spell (row ∷ rows))
            (length (rows_text spell (row ∷ rows)))
          ≡ ok (
            false,
            record { numbers = values (row ∷ rows); width = w; height = length (row ∷ rows) },
          )
    unfolding parse_numbers
    parse_numbers_lem row rows w u wide small =
        let n = length (values (row ∷ rows)) in
        let size : n ≡ w * length (row ∷ rows) = length-values w (row ∷ rows) wide in
        let thin : w < 2 ^ 63 =
          let b = times-bounds (length row.others) (length rows) (2 ^ 60) (rw (wide.0) small) in
          omega arith in
        let low : length (row ∷ rows) < 2 ^ 64 =
          let b = times-bounds (length row.others) (length rows) (2 ^ 60) (rw wide.0 small) in
          omega arith in
        let count : wrap (w * length (row ∷ rows)) ≡ n = wrap_lem _ (omega arith) ∙ sym size in
        let pool : zero_pool (wrap (n * 8)) ≡ replicate n 0 =
          let o : wrap (n * 8) ≡ 8 * n = omega arith in ap zero_pool o ∙ room n in
        let s = all_lem row rows u in
        rw
          (
            measure_lem sscanf spell row rows w u wide thin low,
            count,
            pool,
            s.returns,
            s.holds.0,
            s.holds.1,
          )
          refl

    -- The pool has room, and in a string that ends with a zero byte `sscanf` reads numbers that
    -- are spelled so up to a blank or a line break. A file is read without an error that has at
    -- least one row, in each row `w` such numbers with blanks between them and a line break behind
    -- them, fewer than 2 ^ 60 numbers in all, and a zero byte at its end. Then the result has all
    -- of the numbers, row by row, with the width and the number of rows, and the status of the
    -- reading.
    pub parse_maze_config_file_lem :
        (efi : Efi) (bs : BootServices) (self : ℕ) (filename : Option (List ℕ)) (status : ℕ)
        (row : Row) (rows : List Row) (w : ℕ)
        → RowsRead sscanf spell (row ∷ rows)
        → AreWide w (row ∷ rows)
        → w * length (row ∷ rows) < 2 ^ 60
        → read_file efi bs self filename
          ≡ ok (record {
            status = status;
            contents = some (rows_text spell (row ∷ rows), length (rows_text spell (row ∷ rows)));
          })
        → efi.efi_error status ≡ false
        → parse_maze_config_file sscanf zero_pool efi bs self filename
          ≡ ok (record {
            status = status;
            grid =
                some (record {
                  numbers = values (row ∷ rows);
                  width = w;
                  height = length (row ∷ rows);
                });
          })
    unfolding parse_maze_config_file
    parse_maze_config_file_lem efi bs self filename status row rows w u wide small read fine =
        rw (read, parse_numbers_lem row rows w u wide small, fine) refl
