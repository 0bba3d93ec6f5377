-- ===== src/Kernel/Segments.antt =====
-- One segment in its place.
use uefi_game.Prelude.{
  ℕ, ◌+◌, ◌-◌, ◌^◌, ◌≤◌, ◌<◌, ◌≡◌, refl, ap, ◌∙◌, ◌⊎◌, inl, inr, arith, dec_lt, ltb, ◌==◌,
  if◌then◌else◌, Bool-cases, ==→eq, eq→==, wrap, wrap_lem,
}
use mathlib.Core.Path.{subst}
use uefi_game.Kernel.{Memory, ProgramHeader, u32_in, header_at, load_segment}

module _ (copy_mem : ℕ → ℕ → ℕ → Memory → Memory) (set_mem : ℕ → ℕ → ℕ → Memory → Memory) where
  -- `CopyMem` and `SetMem` on ranges, the two of the copy apart.
  pub record AreCopies : Type 0 where
    pub copied :
        (dst src len k : ℕ) (m : Memory)
        → (dst + len ≤ src) ⊎ (src + len ≤ dst)
        → k < len
        → copy_mem dst src len m (dst + k) ≡ m (src + k)
    pub copy_away :
        (dst src len a : ℕ) (m : Memory)
        → (a < dst) ⊎ (dst + len ≤ a)
        → copy_mem dst src len m a ≡ m a
    pub cleared : (dst len v k : ℕ) (m : Memory) → k < len → set_mem dst len v m (dst + k) ≡ v
    pub set_away :
        (dst len v a : ℕ) (m : Memory) → (a < dst) ⊎ (dst + len ≤ a) → set_mem dst len v m a ≡ m a

  -- Address `a` is in the place of the segment.
  abbrev pub InSegment : ProgramHeader → ℕ → Type 0
  InSegment ph a =
      (ph.type ≡ 1) × (ph.paddr ≤ a) × ((a < ph.paddr + ph.filesz) ⊎ (a < ph.paddr + ph.memsz))

  module _ (copies : AreCopies) (buffer size : ℕ) (small : buffer + size < 2 ^ 64) where
    abbrev pub InBuffer : ℕ → Type 0
    InBuffer a = (buffer ≤ a) × (a < buffer + size)

    -- The segment lies in the file, and its place outside of the buffer.
    pub record IsLoadable (ph : ProgramHeader) : Type 0 where
      pub in_file : ph.off + ph.filesz ≤ size
      pub apart :
          (ph.paddr + ph.filesz ≤ buffer) × (ph.paddr + ph.memsz ≤ buffer)
          ⊎ (buffer + size ≤ ph.paddr)

    -- The bytes of the file, and zeros behind them.
    abbrev pub Loaded : ProgramHeader → Memory → Memory → Type 0
    Loaded ph m m' =
        ((k : ℕ) → k < ph.filesz → m' (ph.paddr + k) ≡ m (buffer + ph.off + k))
        × ((k : ℕ) → ph.filesz ≤ k → k < ph.memsz → m' (ph.paddr + k) ≡ 0)

    -- A round whose header does not change while the segment is copied.
    pub loaded : ProgramHeader → Memory → Memory
    loaded ph m =
        let copied = copy_mem ph.paddr (wrap (buffer + ph.off)) ph.filesz m in
        let filled =
          if ltb ph.filesz ph.memsz
          then set_mem (ph.paddr + ph.filesz) (ph.memsz - ph.filesz) 0 copied
          else copied in
        if ph.type == 1 then filled else m

    outside :
        (ph : ProgramHeader) (a : ℕ)
        → ph.type ≡ 1
        → ¬ InSegment ph a
        → (a < ph.paddr) ⊎ (ph.paddr + ph.filesz ≤ a) × (ph.paddr + ph.memsz ≤ a)
    outside ph a t out = elim (dec_lt a ph.paddr) [
      | yes low ↦ inl low
      | no up ↦ inr (
        elim (dec_lt a (ph.paddr + ph.filesz)) [
          | yes h ↦ absurd (out (t, omega arith, inl h))
          | no k ↦ omega arith
        ],
        elim (dec_lt a (ph.paddr + ph.memsz)) [
          | yes h ↦ absurd (out (t, omega arith, inr h))
          | no k ↦ omega arith
        ],
      )
    ]

    pub load_away :
        (ph : ProgramHeader) (m : Memory) (a : ℕ) → ¬ InSegment ph a → loaded ph m a ≡ m a
    unfolding loaded
    load_away ph m a out = elim (Bool-cases (ph.type == 1)) [
      | inr e ↦ rw e refl
      | inl e ↦
          let far = outside ph a (==→eq ph.type 1 e) out in
          let source = wrap (buffer + ph.off) in
          let kept = copies.copy_away ph.paddr source ph.filesz a m (omega arith) in
          elim (Bool-cases (ltb ph.filesz ph.memsz)) [
            | inr f ↦ rw (e, f) kept
            | inl f ↦
                rw (e, f)
                  (copies.set_away (ph.paddr + ph.filesz) (ph.memsz - ph.filesz) 0 a
                      (copy_mem ph.paddr source ph.filesz m) (ground arith)
                    ∙ kept)
          ]
    ]

    copied_here :
        (ph : ProgramHeader) (m : Memory) (k : ℕ)
        → IsLoadable ph
        → k < ph.filesz
        → copy_mem ph.paddr (wrap (buffer + ph.off)) ph.filesz m (ph.paddr + k)
          ≡ m (buffer + ph.off + k)
    copied_here ph m k l h =
        let far = l.apart in
        let inside = l.in_file in
        rw (wrap_lem (buffer + ph.off) (omega arith))
          (copies.copied ph.paddr (buffer + ph.off) ph.filesz k m (omega arith) h)

    pub load_here :
        (ph : ProgramHeader) (m : Memory) → ph.type ≡ 1 → IsLoadable ph → Loaded ph m (loaded ph m)
    unfolding loaded
    load_here ph m t l =
        let e = eq→== ph.type 1 t in
        let source = wrap (buffer + ph.off) in
        elim (Bool-cases (ltb ph.filesz ph.memsz)) [
          | inr f ↦ rw (e, f) (λ k h. copied_here ph m k l h, λ k h g. absurd (ground arith))
          | inl f ↦
              rw (e, f)
                (
                  λ k h.
                      copies.set_away (ph.paddr + ph.filesz) (ph.memsz - ph.filesz) 0 (ph.paddr + k)
                        (copy_mem ph.paddr source ph.filesz m) (omega arith)
                      ∙ copied_here ph m k l h,
                  λ k h g.
                      let at : ph.paddr + k ≡ ph.paddr + ph.filesz + (k - ph.filesz) =
                        omega arith in
                      rw at (
                        copies.cleared (ph.paddr + ph.filesz) (ph.memsz - ph.filesz) 0
                          (k - ph.filesz) (copy_mem ph.paddr source ph.filesz m) (omega arith)),
                )
        ]

    pub Loaded-keep :
        (ph : ProgramHeader) (m m' m'' : Memory)
        → ph.type ≡ 1
        → ((a : ℕ) → InSegment ph a → m'' a ≡ m' a)
        → Loaded ph m m'
        → Loaded ph m m''
    Loaded-keep ph m m' m'' t same l = (
      λ k h. same (ph.paddr + k) (t, omega arith, inl (omega arith)) ∙ l.0 k h,
      λ k h g. same (ph.paddr + k) (t, omega arith, inr (omega arith)) ∙ l.1 k h g,
    )

    pub u32_same :
        (m m' : Memory) (a : ℕ)
        → ((k : ℕ) → k < 4 → m' (a + k) ≡ m (a + k))
        → u32_in m' a ≡ u32_in m a
    u32_same m m' a same =
        let z : a + 0 ≡ a = omega arith in
        let b0 = subst (λ b. m' b ≡ m b) z (same 0 (omega arith)) in
        let b1 = same 1 (omega arith) in
        let b2 = same 2 (omega arith) in
        let third : a + 3 ≡ a + 2 + 1 = omega arith in
        let b3 = subst (λ b. m' b ≡ m b) third (same 3 (omega arith)) in rw (b0, b1, b2, b3) refl

    pub header_same :
        (m m' : Memory) (a : ℕ)
        → ((k : ℕ) → k < 32 → m' (a + k) ≡ m (a + k))
        → header_at m' a ≡ header_at m a
    header_same m m' a same =
        let word : (d : ℕ) → d ≤ 28 → u32_in m' (a + d) ≡ u32_in m (a + d) = λ d h.
          u32_same m m' (a + d) (λ k l.
            let e : a + d + k ≡ a + (d + k) = omega arith in rw e (same (d + k) (omega arith))) in
        let z : a + 0 ≡ a = omega arith in
        let w0 = subst (λ b. u32_in m' b ≡ u32_in m b) z (word 0 (omega arith)) in
        rw
          (
            w0,
            word 4 (omega arith),
            word 8 (omega arith),
            word 12 (omega arith),
            word 16 (omega arith),
            word 20 (omega arith),
            word 24 (omega arith),
            word 28 (omega arith),
          )
          refl

    pub load_segment_lem :
        (p : ℕ) (m : Memory)
        → buffer ≤ p
        → p + 32 ≤ buffer + size
        → ((header_at m p).type ≡ 1 → IsLoadable (header_at m p))
        → load_segment copy_mem set_mem buffer p m ≡ loaded (header_at m p) m
    unfolding load_segment loaded
    load_segment_lem p m low high able = elim (Bool-cases ((header_at m p).type == 1)) [
      | inr e ↦ rw e refl
      | inl e ↦
          let ph = header_at m p in
          let copied = copy_mem ph.paddr (wrap (buffer + ph.off)) ph.filesz m in
          let l = able (==→eq ph.type 1 e) in
          let far = l.apart in
          let same : header_at copied p ≡ ph = header_same m copied p (λ k h.
            copies.copy_away ph.paddr (wrap (buffer + ph.off)) ph.filesz (p + k) m (omega arith)) in
          rw e (
            ap
              (λ (now : ProgramHeader).
                if ltb now.filesz now.memsz
                then set_mem (ph.paddr + now.filesz) (now.memsz - now.filesz) 0 copied
                else copied)
              same)
    ]
