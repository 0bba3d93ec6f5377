-- ===== src/Kernel/Tables/Overlap.antt =====
-- The tables where the pointer `gdt_desc`, which nothing has set, points into the structure itself.
use uefi_game.Prelude.{ℕ, ◌+◌, ◌-◌, ◌*◌, ◌^◌, ◌<◌, ◌≡◌, refl, sym, ◌∙◌, inl, arith}
use mathlib.Core.Path.{subst}
use uefi_game.Kernel.{Memory}
use uefi_game.Kernel.Tables.{
  number_in, bytes_of, entry_addr_at, gdt_at, gdt_desc_at, gdt_desc, fill_boot,
}
use uefi_game.Kernel.Tables.Stores.{store_away, number_in-same, number_in-store, Fits-eight}
use uefi_game.Kernel.Tables.Flat.{
  entered, sized, described, filled, filled_away, entered_pointer, filled_lem,
}

module _ (entry_address boot : ℕ) (m : Memory) (structure : boot + 56 < 2 ^ 64)
    (inside : gdt_desc m boot ≡ entry_addr_at boot) where
  sized_same : gdt_desc (sized entry_address boot m) boot ≡ gdt_desc m boot
  sized_same =
      number_in-same 8 (gdt_desc_at boot) (entered entry_address boot m)
        (sized entry_address boot m)
        (λ b l u.
          store_away (gdt_desc m boot) (bytes_of 2 (8 * 3 - 1)) (entered entry_address boot m) b
            (omega (arith, inside)))
      ∙ entered_pointer entry_address boot m

  -- The memory after the last store is `m'`.
  abbrev Overwritten : Memory → Type 0
  Overwritten m' =
      (number_in 2 m' (entry_addr_at boot) ≡ 8 * 3 - 1)
      × (number_in 8 m' (entry_addr_at boot + 2) ≡ gdt_at boot)

  size_lem : number_in 2 (filled entry_address boot m) (gdt_desc m boot) ≡ 8 * 3 - 1
  size_lem =
      number_in-same 2 (gdt_desc m boot) (described entry_address boot m)
        (filled entry_address boot m)
        (λ b l u. filled_away entry_address boot m b (inl (omega (arith, inside))))
      ∙ number_in-same 2 (gdt_desc m boot) (sized entry_address boot m)
          (described entry_address boot m)
          (λ b l u.
            store_away (gdt_desc m boot + 2) (bytes_of 8 (gdt_at boot)) (sized entry_address boot m)
              b (inl (omega arith)))
      ∙ number_in-store 2 (gdt_desc m boot) (8 * 3 - 1) (entered entry_address boot m) refl

  place_lem : number_in 8 (filled entry_address boot m) (gdt_desc m boot + 2) ≡ gdt_at boot
  place_lem =
      number_in-same 8 (gdt_desc m boot + 2) (described entry_address boot m)
        (filled entry_address boot m)
        (λ b l u. filled_away entry_address boot m b (inl (omega (arith, inside))))
      ∙ number_in-store 8 (gdt_desc m boot + 2) (gdt_at boot) (sized entry_address boot m)
          (Fits-eight (gdt_at boot) (omega arith))

  -- The pointer `gdt_desc`, which nothing has set, points to the field `entry_addr` of the
  -- structure. Then, whatever the entry address, this field holds in its place the last byte of
  -- the table and after it, over the start of the next field, the place of the table.
  pub fill_boot_overlap :
      (number_in 2 (fill_boot entry_address boot m) (entry_addr_at boot) ≡ 8 * 3 - 1)
      × (number_in 8 (fill_boot entry_address boot m) (entry_addr_at boot + 2) ≡ gdt_at boot)
  fill_boot_overlap =
      subst Overwritten (sym (filled_lem entry_address boot m sized_same (omega (arith, inside)))) (
        subst
          (λ a.
            (number_in 2 (filled entry_address boot m) a ≡ 8 * 3 - 1)
            × (number_in 8 (filled entry_address boot m) (a + 2) ≡ gdt_at boot))
          inside (size_lem, place_lem))
