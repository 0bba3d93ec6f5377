-- ===== src/Kernel/Loading.antt =====
-- The segments in their places.
use uefi_game.Prelude.{
  ℕ, zero, suc, ◌+◌, ◌*◌, ◌^◌, ◌≤◌, ◌<◌, ◌≡◌, refl, sym, ◌∙◌, ◌≢◌, arith, ℕ_discrete,
}
use mathlib.Core.Path.{subst}
use uefi_game.Kernel.{
  Memory, ProgramHeader, u16_in, u32_in, header_at, load_segment, load_segments, load_kernel,
}
use uefi_game.Kernel.Segments.{
  AreCopies, InSegment, InBuffer, IsLoadable, Loaded, loaded, load_away, load_here, Loaded-keep,
  u32_same, header_same, load_segment_lem,
}

module _ (copy_mem : ℕ → ℕ → ℕ → Memory → Memory) (set_mem : ℕ → ℕ → ℕ → Memory → Memory)
    (copies : AreCopies copy_mem set_mem) (buffer size : ℕ) (small : buffer + size < 2 ^ 64) where
  module _ (m : Memory) (table count : ℕ) where
    abbrev pub header : ℕ → ProgramHeader
    header i = header_at m (table + 32 * i)

    -- The headers are in the file, their segments can be loaded copy_mem set_mem copies buffer size small, and their places are apart.
    pub record IsTable : Type 0 where
      pub low : buffer ≤ table
      pub high : table + 32 * count ≤ buffer + size
      pub loadable :
          (i : ℕ)
          → i < count
          → (header i).type ≡ 1
          → IsLoadable copy_mem set_mem copies buffer size small (header i)
      pub disjoint :
          (i j a : ℕ)
          → i < count
          → j < count
          → i ≢ j
          → InSegment copy_mem set_mem (header i) a
          → ¬ InSegment copy_mem set_mem (header j) a

    -- The first `i` segments are in their places, and no other byte has changed.
    pub record InPlace (i : ℕ) (m' : Memory) : Type 0 where
      pub in_place :
          (j : ℕ)
          → j < i
          → (header j).type ≡ 1
          → Loaded copy_mem set_mem copies buffer size small (header j) m m'
      pub others :
          (a : ℕ) → ((j : ℕ) → j < i → ¬ InSegment copy_mem set_mem (header j) a) → m' a ≡ m a

    module _ (t : IsTable) where
      in_buffer :
          (i a : ℕ)
          → i < count
          → InBuffer copy_mem set_mem copies buffer size small a
          → ¬ InSegment copy_mem set_mem (header i) a
      in_buffer i a h b s = let l = (t.loadable i h s.0).apart in omega arith

      buffer_kept :
          (i : ℕ) (m' : Memory)
          → i ≤ count
          → InPlace i m'
          → (a : ℕ) → InBuffer copy_mem set_mem copies buffer size small a
          → m' a ≡ m a
      buffer_kept i m' h p a b = p.others a (λ j l. in_buffer j a (omega arith) b)

      in_place_lem :
          (i j : ℕ) (m' : Memory)
          → i < count
          → InPlace i m'
          → j < i + 1
          → (header j).type ≡ 1
          → Loaded copy_mem set_mem copies buffer size small
              (header j)
              m
              (loaded copy_mem set_mem copies buffer size small (header i) m')
      in_place_lem i j m' h p l e = elim (ℕ_discrete j i) [
        | yes same ↦
            let able = t.loadable j (omega arith) e in
            let here = load_here copy_mem set_mem copies buffer size small (header j) m' e able in
            let inside = able.in_file in
            rw (← same) (
              λ k g.
                  here.0 k g
                  ∙ buffer_kept i m' (omega arith) p (buffer + (header j).off + k)
                      (omega arith, omega arith),
              here.1,
            )
        | no ne ↦
            Loaded-keep copy_mem set_mem copies buffer size small (header j) m m'
              (loaded copy_mem set_mem copies buffer size small (header i) m') e
              (λ a s.
                load_away copy_mem set_mem copies buffer size small (header i) m' a
                  (t.disjoint j i a (omega arith) h ne s))
              (p.in_place j (omega arith) e)
      ]

      round_lem :
          (i : ℕ) (m' : Memory)
          → i < count
          → InPlace i m'
          → InPlace (i + 1) (load_segment copy_mem set_mem buffer (table + 32 * i) m')
      round_lem i m' h p =
          let low = t.low in
          let high = t.high in
          let same : header_at m' (table + 32 * i) ≡ header i =
            header_same copy_mem set_mem copies buffer size small m m' (table + 32 * i) (λ k l.
              buffer_kept i m' (omega arith) p (table + 32 * i + k) (omega arith, omega arith)) in
          let round =
            load_segment_lem copy_mem set_mem copies buffer size small (table + 32 * i) m'
              (omega arith) (omega arith)
              (subst
                (λ (ph : ProgramHeader).
                  ph.type ≡ 1 → IsLoadable copy_mem set_mem copies buffer size small ph)
                (sym same) (t.loadable i h)) in
          rw (round, same)
            (record {
              in_place = λ j l e. in_place_lem i j m' h p l e;
              others = λ a out.
                  load_away copy_mem set_mem copies buffer size small (header i) m' a
                    (out i (omega arith))
                  ∙ p.others a (λ j l. out j (omega arith));
            })

      segments_lem :
          (n i : ℕ) (m' : Memory)
          → i + n ≡ count
          → InPlace i m'
          → InPlace count (load_segments copy_mem set_mem buffer n (table + 32 * i) m')
      unfolding load_segments
      segments_lem zero i m' e p =
          let e' : i ≡ count = omega arith in subst (λ k. InPlace k m') e' p
      segments_lem (suc n) i m' e p =
          let next : table + 32 * i + 32 ≡ table + 32 * (i + 1) = omega arith in
          rw next (
            segments_lem n (i + 1) (load_segment copy_mem set_mem buffer (table + 32 * i) m')
              (omega arith) (round_lem i m' (omega arith) p))

  -- The table of the headers that the file in the buffer names.
  abbrev pub table_of : Memory → ℕ
  table_of m = buffer + u32_in m (buffer + 28)

  abbrev pub count_of : Memory → ℕ
  count_of m = u16_in m (buffer + 44)

  -- The file is an ELF file of 28 bytes or more: its headers lie in it, and the segments that are to be loaded copy_mem set_mem copies buffer size small have
  -- their bytes in the file and their places apart from the buffer and from one another. Then each
  -- of them stands in its place with zeros behind its bytes, no other byte of the memory has
  -- changed, and the entry address is that of the file.
  pub load_kernel_lem :
      (m : Memory)
      → 28 ≤ size
      → IsTable m (table_of m) (count_of m)
      → InPlace m
          (table_of m)
          (count_of m)
          (count_of m)
          (load_kernel copy_mem set_mem buffer m).memory
        × ((load_kernel copy_mem set_mem buffer m).entry_address ≡ u32_in m (buffer + 24))
  unfolding load_kernel
  load_kernel_lem m head t =
      let z : table_of m + 32 * 0 ≡ table_of m = omega arith in
      let start : InPlace m (table_of m) (count_of m) 0 m = record {
        in_place = λ j l e. absurd (omega arith);
        others = λ a out. refl;
      } in
      let all =
        subst
          (λ b.
            InPlace m (table_of m) (count_of m) (count_of m)
              (load_segments copy_mem set_mem buffer (count_of m) b m))
          z (segments_lem m (table_of m) (count_of m) t (count_of m) 0 m (omega arith) start) in
      (
        all,
        u32_same copy_mem set_mem copies buffer size small m
            (load_segments copy_mem set_mem buffer (count_of m) (table_of m) m) (buffer + 24)
            (λ k l.
              buffer_kept m (table_of m) (count_of m) t (count_of m)
                (load_segments copy_mem set_mem buffer (count_of m) (table_of m) m) (omega arith)
                all (buffer + 24 + k) (omega arith, omega arith)),
      )
