-- ===== src/Kernel/Tables/Flat.antt =====
-- The tables that the kernel finds.
use uefi_game.Prelude.{
  ℕ, ◌+◌, ◌-◌, ◌*◌, ◌^◌, ◌≤◌, ◌<◌, ◌≡◌, refl, sym, ap, ◌∙◌, ◌⊎◌, inl, inr, arith, true, not, ◌&&◌,
  List, length, wrap, wrap_lem, get_elem?-replicate, lt-of_get_elem?,
}
use mathlib.Core.Path.{subst}
use uefi_game.Kernel.{Memory}
use uefi_game.Kernel.Tables.{
  Gdt, number_in, bytes_of, store_bytes, entry_addr_at, gdt_at, gdt_desc_at, gdt_desc,
  descriptor_in, descriptor_bytes, null_descriptor, code_descriptor, data_descriptor, fill_boot,
}
use uefi_game.Kernel.Tables.Stores.{
  Outside, store_away, store_at, number_in-same, number_in-store, length-bytes_of, Fits-eight,
  HasDescriptor, descriptor_lem,
}
use uefi_game.Kernel.Tables.Descriptors.{
  IsFlat, access_bit, code-IsFlat, data-IsFlat, x_lem, w_lem, code-IsNarrow, data-IsNarrow,
}

-- The ten bytes that the pointer `gdt_desc` of the structure points to lie in the memory of 2 ^ 64 bytes
-- and outside of the structure.
pub record PointsAway (boot : ℕ) (m : Memory) : Type 0 where
  pub structure : boot + 56 < 2 ^ 64
  pub high : gdt_desc m boot + 10 < 2 ^ 64
  pub apart : (gdt_desc m boot + 10 ≤ boot) ⊎ (boot + 56 ≤ gdt_desc m boot)

-- The tables that the kernel starts with, and all the bytes that may have changed.
pub record IsReady (entry_address boot : ℕ) (before m : Memory) : Type 0 where
  pub pointer : gdt_desc m boot ≡ gdt_desc before boot
  pub entry : number_in 8 m boot ≡ entry_address
  pub entry_addr : number_in 8 m (entry_addr_at boot) ≡ entry_address
  pub size : number_in 2 m (gdt_desc m boot) ≡ 8 * 3 - 1
  pub gdt_addr : number_in 8 m (gdt_desc m boot + 2) ≡ gdt_at boot
  pub null_segment : (k : ℕ) → k < 8 → m (gdt_at boot + k) ≡ 0
  pub flat_code : IsFlat (descriptor_in m (gdt_at boot + 8))
  pub executable : access_bit 3 (descriptor_in m (gdt_at boot + 8)) ≡ true
  pub flat_data : IsFlat (descriptor_in m (gdt_at boot + 16))
  pub writable :
      (not (access_bit 3 (descriptor_in m (gdt_at boot + 16)))
        && access_bit 1 (descriptor_in m (gdt_at boot + 16)))
      ≡ true
  pub others :
      (a : ℕ)
      → Outside boot 16 a
      → Outside (gdt_at boot) 24 a
      → Outside (gdt_desc before boot) 10 a
      → m a ≡ before a

length-descriptor : (g : Gdt) → length (descriptor_bytes g) ≡ 8
length-descriptor g = refl

-- A descriptor that is stored is there, and no other byte changes.
store_descriptor :
    (a : ℕ) (g : Gdt) (m : Memory) → HasDescriptor g (store_bytes a (descriptor_bytes g) m) a
store_descriptor a g m k v e = store_at a (descriptor_bytes g) m k v e

HasDescriptor-keep :
    (g : Gdt) (a b : ℕ) (vs : List ℕ) (m : Memory)
    → a + 8 ≤ b
    → HasDescriptor g m a
    → HasDescriptor g (store_bytes b vs m) a
HasDescriptor-keep g a b vs m le h k v e =
    let low = lt-of_get_elem? (descriptor_bytes g) k e in
    store_away b vs m (a + k) (inl (omega (arith, low, length-descriptor g))) ∙ h k v e

module _ (entry_address boot : ℕ) (m : Memory) where
  abbrev pub first : Memory
  first = store_bytes boot (bytes_of 8 entry_address) m

  abbrev pub entered : Memory
  entered = store_bytes (entry_addr_at boot) (bytes_of 8 entry_address) first

  abbrev pub desc : ℕ
  desc = gdt_desc m boot

  abbrev pub sized : Memory
  sized = store_bytes desc (bytes_of 2 (8 * 3 - 1)) entered

  abbrev pub described : Memory
  described = store_bytes (desc + 2) (bytes_of 8 (gdt_at boot)) sized

  abbrev pub with_null : Memory
  with_null = store_bytes (gdt_at boot) (descriptor_bytes null_descriptor) described

  abbrev pub with_code : Memory
  with_code = store_bytes (gdt_at boot + 8) (descriptor_bytes code_descriptor) with_null

  abbrev pub filled : Memory
  filled = store_bytes (gdt_at boot + 16) (descriptor_bytes data_descriptor) with_code

  pub entered_away : (b : ℕ) → Outside boot 16 b → entered b ≡ m b
  entered_away b h =
      let n = length-bytes_of 8 entry_address in
      store_away (entry_addr_at boot) (bytes_of 8 entry_address) first b (omega arith)
      ∙ store_away boot (bytes_of 8 entry_address) m b (omega arith)

  pub described_away : (b : ℕ) → Outside desc 10 b → described b ≡ entered b
  described_away b h =
      store_away (desc + 2) (bytes_of 8 (gdt_at boot)) sized b (omega arith)
      ∙ store_away desc (bytes_of 2 (8 * 3 - 1)) entered b (omega arith)

  pub filled_away : (b : ℕ) → Outside (gdt_at boot) 24 b → filled b ≡ described b
  filled_away b h =
      store_away (gdt_at boot + 16) (descriptor_bytes data_descriptor) with_code b (omega arith)
      ∙ store_away (gdt_at boot + 8) (descriptor_bytes code_descriptor) with_null b (omega arith)
      ∙ store_away (gdt_at boot) (descriptor_bytes null_descriptor) described b (omega arith)

  pub entered_pointer : gdt_desc entered boot ≡ desc
  entered_pointer =
      number_in-same 8 (gdt_desc_at boot) m entered (λ b l u. entered_away b (inr (omega arith)))

  pub filled_lem :
      gdt_desc sized boot ≡ desc → desc + 2 < 2 ^ 64 → fill_boot entry_address boot m ≡ filled
  unfolding fill_boot
  filled_lem same high =
      let near : wrap (desc + 2) ≡ desc + 2 = wrap_lem (desc + 2) high in
      rw (entered_pointer, same, near) refl

  module _ (low : entry_address < 2 ^ 64) (away : PointsAway boot m) where
    sized_pointer : gdt_desc sized boot ≡ desc
    sized_pointer =
        number_in-same 8 (gdt_desc_at boot) entered sized (λ b l u.
          let apart = away.apart in
          store_away desc (bytes_of 2 (8 * 3 - 1)) entered b (omega arith))
        ∙ entered_pointer

    -- Outside of the structure only the ten bytes behind the pointer change.
    kept :
        (n a : ℕ)
        → ((b : ℕ) → a ≤ b → b < a + n → Outside (gdt_at boot) 24 b × Outside desc 10 b)
        → number_in n filled a ≡ number_in n entered a
    kept n a h =
        number_in-same n a entered filled
          (λ b l u. let o = h b l u in filled_away b o.0 ∙ described_away b o.1)

    pointer_lem : gdt_desc filled boot ≡ desc
    pointer_lem =
        kept 8 (gdt_desc_at boot) (λ b l u. let apart = away.apart in (omega arith, omega arith))
        ∙ entered_pointer

    entry_lem : number_in 8 filled boot ≡ entry_address
    entry_lem =
        kept 8 boot (λ b l u. let apart = away.apart in (omega arith, omega arith))
        ∙ number_in-same 8 boot first entered (λ b l u.
          store_away (entry_addr_at boot) (bytes_of 8 entry_address) first b (inl (omega arith)))
        ∙ number_in-store 8 boot entry_address m (Fits-eight entry_address low)

    entry_addr_lem : number_in 8 filled (entry_addr_at boot) ≡ entry_address
    entry_addr_lem =
        kept 8 (entry_addr_at boot) (λ b l u. let apart = away.apart in (omega arith, omega arith))
        ∙ number_in-store 8 (entry_addr_at boot) entry_address first (Fits-eight entry_address low)

    size_lem : number_in 2 filled desc ≡ 8 * 3 - 1
    size_lem =
        number_in-same 2 desc described filled
          (λ b l u. let apart = away.apart in filled_away b (omega arith))
        ∙ number_in-same 2 desc sized described
            (λ b l u. store_away (desc + 2) (bytes_of 8 (gdt_at boot)) sized b (inl (omega arith)))
        ∙ number_in-store 2 desc (8 * 3 - 1) entered refl

    gdt_addr_lem : number_in 8 filled (desc + 2) ≡ gdt_at boot
    gdt_addr_lem =
        let structure = away.structure in
        number_in-same 8 (desc + 2) described filled
          (λ b l u. let apart = away.apart in filled_away b (omega arith))
        ∙ number_in-store 8 (desc + 2) (gdt_at boot) sized (Fits-eight (gdt_at boot) (omega arith))

    null_lem : (k : ℕ) → k < 8 → filled (gdt_at boot + k) ≡ 0
    unfolding null_descriptor
    null_lem k h =
        store_away (gdt_at boot + 16) (descriptor_bytes data_descriptor) with_code (gdt_at boot + k)
          (inl (omega arith))
        ∙ store_away (gdt_at boot + 8) (descriptor_bytes code_descriptor) with_null
            (gdt_at boot + k) (inl (omega arith))
        ∙ store_at (gdt_at boot) (descriptor_bytes null_descriptor) described k 0
            (get_elem?-replicate 8 k 0 h)

    code_lem : descriptor_in filled (gdt_at boot + 8) ≡ code_descriptor
    code_lem = descriptor_lem code_descriptor filled (gdt_at boot + 8) code-IsNarrow (
        HasDescriptor-keep code_descriptor (gdt_at boot + 8) (gdt_at boot + 16)
          (descriptor_bytes data_descriptor) with_code (omega arith)
          (store_descriptor (gdt_at boot + 8) code_descriptor with_null))

    data_lem : descriptor_in filled (gdt_at boot + 16) ≡ data_descriptor
    data_lem =
        descriptor_lem data_descriptor filled (gdt_at boot + 16) data-IsNarrow
          (store_descriptor (gdt_at boot + 16) data_descriptor with_code)

    -- The entry address has eight bytes, and the ten bytes that the pointer `gdt_desc` of the
    -- structure points to lie apart from the structure. Then both entry fields hold the entry
    -- address, the table has an empty descriptor, one for code and one for data, each of these two
    -- over all of the four gigabytes, the pointer still points where it did, to the place of the
    -- table and its last byte, and no byte changes but those of the entries, the table and what is
    -- pointed to.
    pub fill_boot_lem : IsReady entry_address boot m (fill_boot entry_address boot m)
    fill_boot_lem =
        subst (IsReady entry_address boot m)
          (sym (filled_lem sized_pointer (let high = away.high in omega arith)))
          (record {
            pointer = pointer_lem;
            entry = entry_lem;
            entry_addr = entry_addr_lem;
            size = rw pointer_lem size_lem;
            gdt_addr = rw pointer_lem gdt_addr_lem;
            null_segment = null_lem;
            flat_code = subst IsFlat (sym code_lem) code-IsFlat;
            executable = ap (access_bit 3) code_lem ∙ x_lem;
            flat_data = subst IsFlat (sym data_lem) data-IsFlat;
            writable = ap (λ g. not (access_bit 3 g) && access_bit 1 g) data_lem ∙ w_lem;
            others = λ a b t d. filled_away a t ∙ described_away a d ∙ entered_away a b;
          })
