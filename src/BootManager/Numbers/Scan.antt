-- ===== src/BootManager/Numbers/Scan.antt =====
-- The numbers of a file, one after the other.
use uefi_game.Prelude.{
  ℕ, suc, ◌+◌, ◌≡◌, refl, sym, ap, ◌∙◌, ◌⊎◌, inl, inr, false, Option, some, List, [], ◌∷◌, ◌++◌,
  arith, length, replicate, drop, length-append, Result, ok, Returns, Returns-ok, Returns-map,
  store_lem, for_loop, set-append, append_step,
}
use uefi_game.BootManager.Numbers.{Scanning, take_number, scan_number}
use uefi_game.BootManager.Numbers.Rows.{
  Row, others_text, rows_text, values, row_tail, AllRead, RowsRead, IsTerminated,
  IsTerminated-append, others_text-IsTerminated, rows_text-IsTerminated,
}

module _ (sscanf : List ℕ → Result (Option (ℕ × ℕ))) (spell : ℕ → List ℕ) where
  pub others_head :
      (vs rest : List ℕ)
      → IsTerminated rest
      → (sep : ℕ) × (rest' : List ℕ) × ((sep ≡ b' ') ⊎ (sep ≡ b'\n'))
        × (others_text spell vs rest ≡ sep ∷ rest')
        × IsTerminated rest'
  others_head [] rest h = (b'\n', rest, inr refl, refl, h)
  others_head (v ∷ vs) rest h = (
    b' ',
    spell v ++ others_text spell vs rest,
    inl refl,
    refl,
    IsTerminated-append (spell v) _ (others_text-IsTerminated spell vs rest h),
  )

  read_lem :
      (file text before after : List ℕ) (at v n : ℕ)
      → drop at file ≡ text
      → sscanf text ≡ ok (some (v, n))
      → scan_number sscanf file
          (length before)
          (record { numbers = before ++ 0 ∷ after; cur_buffer = at; failed = false })
        ≡ ok (record { numbers = before ++ v ∷ after; cur_buffer = at + n; failed = false })
  unfolding scan_number take_number
  read_lem file text before after at v n e r = rw (
    e,
    r,
    store_lem (before ++ 0 ∷ after) (length before) v
        (omega (arith, length-append before (0 ∷ after))),
    set-append before after 0 v,
  )

  -- The end of the loop: all of the numbers are there.
  abbrev pub Scanned : List ℕ → Scanning → Type 0
  Scanned numbers s = (s.numbers ≡ numbers) × (s.failed ≡ false)

  pub go_on :
      (file before after all : List ℕ) (at v n m k : ℕ) (text : List ℕ) (nums : List ℕ)
      → nums ≡ before ++ 0 ∷ after
      → k ≡ length before
      → drop at file ≡ text
      → sscanf text ≡ ok (some (v, n))
      → Returns (Scanned all) (
          for_loop m
            (length before + 1)
            (scan_number sscanf file)
            (record { numbers = before ++ v ∷ after; cur_buffer = at + n; failed = false }))
      → Returns (Scanned all) (
          for_loop
            (suc m)
            k
            (scan_number sscanf file)
            (record { numbers = nums; cur_buffer = at; failed = false }))
  unfolding for_loop
  go_on file before after all at v n m k text nums f g e r h =
      rw (f, g, read_lem file text before after at v n e r) h

  pub numbers_lem :
      (vs : List ℕ) (rows : List Row) (file before nums : List ℕ) (at k m : ℕ)
      → AllRead sscanf spell vs
      → RowsRead sscanf spell rows
      → drop at file ≡ others_text spell vs (rows_text spell rows)
      → m ≡ length vs + length (values rows)
      → nums ≡ before ++ replicate m 0
      → k ≡ length before
      → Returns (Scanned (before ++ (vs ++ values rows))) (
          for_loop m k
            (scan_number sscanf file)
            (record { numbers = nums; cur_buffer = at; failed = false }))
  unfolding for_loop
  numbers_lem [] [] file before nums at k m u us e size f g =
      let o : m ≡ 0 = omega (arith, size) in
      let none_left : nums ≡ before ++ [] = f ∙ ap (λ n. before ++ replicate n 0) o in
      rw o (Returns-ok (none_left, refl))
  numbers_lem [] (row ∷ rows) file before nums at k m u us e size f g =
      let (sep, rest, blank, there, ends) =
        others_head row.others (rows_text spell rows) (rows_text-IsTerminated spell rows) in
      let text = others_text spell row.others (rows_text spell rows) in
      let m' = length row.others + length (values rows) in
      let o : m ≡ suc m' = omega (arith, size, length-append row.others (values rows)) in
      let read =
        ap (λ t. sscanf (b'\n' ∷ spell row.first ++ t)) there
        ∙ us.0.behind b'\n' sep rest (inr refl) blank ends in
      let next =
        numbers_lem row.others rows file (before ++ row.first ∷ [])
          (before ++ row.first ∷ replicate m' 0) (at + suc (length (spell row.first)))
          (length before + 1) m' us.1 us.2 (row_tail file (b'\n' ∷ spell row.first) text at e) refl
          (append_step before row.first (replicate m' 0))
          (omega (arith, length-append before (row.first ∷ []))) in
      rw o (
        go_on file before (replicate m' 0) _ at row.first (suc (length (spell row.first))) m' k _
          nums (f ∙ ap (λ n. before ++ replicate n 0) o) g e read
          (Returns-map next (λ s h. (h.0 ∙ sym (append_step before row.first _), h.1))))
  numbers_lem (v ∷ vs) rows file before nums at k m u us e size f g =
      let (sep, rest, blank, there, ends) =
        others_head vs (rows_text spell rows) (rows_text-IsTerminated spell rows) in
      let text = others_text spell vs (rows_text spell rows) in
      let m' = length vs + length (values rows) in
      let o : m ≡ suc m' = omega (arith, size) in
      let read =
        ap (λ t. sscanf (b' ' ∷ spell v ++ t)) there
        ∙ u.0.behind b' ' sep rest (inl refl) blank ends in
      let next =
        numbers_lem vs rows file (before ++ v ∷ []) (before ++ v ∷ replicate m' 0)
          (at + suc (length (spell v))) (length before + 1) m' u.1 us
          (row_tail file (b' ' ∷ spell v) text at e) refl (append_step before v (replicate m' 0))
          (omega (arith, length-append before (v ∷ []))) in
      rw o (
        go_on file before (replicate m' 0) _ at v (suc (length (spell v))) m' k _ nums
          (f ∙ ap (λ n. before ++ replicate n 0) o) g e read
          (Returns-map next (λ s h. (h.0 ∙ sym (append_step before v _), h.1))))
