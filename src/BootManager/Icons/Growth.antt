-- ===== src/BootManager/Icons/Growth.antt =====
-- `AddElement` appends.
use uefi_game.Prelude.{
  sym, append-of_get_elem?, ℕ, ◌+◌, ◌*◌, ◌^◌, ◌<◌, ◌≡◌, refl, ap, ◌∙◌, false, List, [], ◌∷◌, ◌++◌,
  arith, ◌==◌, if◌then◌else◌, wrap, wrap_lem, length, get_elem?, set, length-set,
  get_elem?-set_self, get_elem?-set_ne, ok, store, store_lem,
}
use uefi_game.BootManager.Icons.{add_element}

module _ {I : Type 0} (pool : ℕ → List I) (realloc : ℕ → ℕ → List I → List I) where
  -- The pool never runs out, and a buffer keeps its contents when it grows.
  pub record Grows : Type 0 where
    pub first : length (pool 8) ≡ 1
    pub size :
        (n : ℕ) (list : List I)
        → length list ≡ n
        → length (realloc (8 * n) (8 * (n + 1)) list) ≡ n + 1
    pub kept :
        (n k : ℕ) (list : List I)
        → length list ≡ n
        → k < n
        → get_elem? (realloc (8 * n) (8 * (n + 1)) list) k ≡ get_elem? list k

  -- The buffer that the element is written to.
  abbrev larger : List I → List I
  larger list =
      if length list == 0
      then pool (8 * (length list + 1))
      else realloc (8 * length list) (8 * (length list + 1)) list

  larger_size : Grows → (list : List I) → length (larger list) ≡ length list + 1
  larger_size g [] = g.first
  larger_size g (x ∷ xs) =
      let more : (length (x ∷ xs) == 0) ≡ false = ground arith in
      rw more (g.size (length (x ∷ xs)) (x ∷ xs) refl)

  larger_kept :
      Grows
      → (list : List I) (k : ℕ) → k < length list
      → get_elem? (larger list) k ≡ get_elem? list k
  larger_kept g [] k h = absurd (omega arith)
  larger_kept g (x ∷ xs) k h =
      let more : (length (x ∷ xs) == 0) ≡ false = ground arith in
      rw more (g.kept (length (x ∷ xs)) k (x ∷ xs) refl h)

  stored :
      Grows
      → (list : List I) (element : I)
      → store (larger list) (length list) element ≡ ok (list ++ element ∷ [])
  stored g list element =
      let n = length list in
      let size = larger_size g list in
      let room : n < length (larger list) = omega arith in
      store_lem (larger list) n element room
      ∙ ap ok (
          append-of_get_elem? list (set (larger list) n element) element
            (length-set (larger list) n element ∙ size)
            (λ k h.
              get_elem?-set_ne (larger list) n k element (omega arith) ∙ larger_kept g list k h)
            (get_elem?-set_self (larger list) n element room))

  -- If the pool never runs out and a buffer keeps its contents when it grows, an element is added
  -- at the end of an array that is as long as its count, below 2 ^ 60.
  pub add_element_lem :
      (list : List I) (element : I)
      → Grows
      → length list < 2 ^ 60
      → add_element pool realloc list (length list) element
        ≡ ok (record { images = list ++ element ∷ []; count = length list + 1 })
  unfolding add_element
  add_element_lem list element g small =
      let n = length list in
      let old : wrap (8 * n) ≡ 8 * n = wrap_lem _ (omega arith) in
      let new : wrap (8 * (n + 1)) ≡ 8 * (n + 1) = wrap_lem _ (omega arith) in
      let count : wrap (n + 1) ≡ n + 1 = wrap_lem _ (omega arith) in
      rw (old, new, count, stored g list element)

  -- The same on an array with its count.
  pub append_lem :
      (list : List I) (count : ℕ) (element : I)
      → Grows
      → count ≡ length list
      → length list < 2 ^ 60
      → add_element pool realloc list count element
        ≡ ok (record { images = list ++ element ∷ []; count = count + 1 })
  append_lem list count element g same small =
      ap (λ n. add_element pool realloc list n element) same
      ∙ add_element_lem list element g small
      ∙ ap (λ n. ok (record { images = list ++ element ∷ []; count = n + 1 })) (sym same)
