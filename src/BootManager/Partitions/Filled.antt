-- ===== src/BootManager/Partitions/Filled.antt =====
-- The table has no cleared entry: `BootEntry` reads the GUID of every one.
use uefi_game.Prelude.{
  none, ◌+◌, ℕ, zero, suc, ◌≤◌, ◌<◌, ◌≡◌, refl, sym, ap, ◌∙◌, inl, inr, Option, some, List, [], ◌∷◌,
  arith, Option-cases, length, get_elem?, some_inj, get_elem?-of_lt, lt-of_get_elem?,
}
use uefi_game.Efi.{Efi}
use uefi_game.BootManager.Partitions.{Node, Partition, zero_partition}
use uefi_game.BootManager.Partitions.Drives.{drive_of, drive_count, drive_count-le, entry}
use uefi_game.BootManager.Partitions.Table.{DrivesFirst, Table}
use uefi_game.BootManager.Boot.First.{AreFilled}

AreFilled-of_each :
    (parts : List Partition)
    → ((i : ℕ) (q : Partition) → get_elem? parts i ≡ some q → (g : ℕ) × (q.guid ≡ some g))
    → AreFilled parts
AreFilled-of_each [] h = tt
AreFilled-of_each (q ∷ qs) h = (h 0 q refl, AreFilled-of_each qs (λ i r e. h (suc i) r e))

module _ (efi : Efi) (device_path : ℕ → Option (List Node)) where
  -- The hard drive partitions among the handles come before index `c`.
  abbrev Before : ℕ → List ℕ → Type 0
  Before c hs = (i h g : ℕ) → get_elem? hs i ≡ some h → drive_of efi device_path h ≡ some g → i < c

  -- If there are as many of them, each handle before that index is one.
  abbrev AllBefore : ℕ → List ℕ → Type 0
  AllBefore c hs =
      (drive_count efi device_path hs ≤ c)
      × (drive_count efi device_path hs ≡ c
          → (i h : ℕ) → i < c
          → get_elem? hs i ≡ some h
          → (g : ℕ) × (drive_of efi device_path h ≡ some g))

  cons_lem :
      (h : ℕ) (hs : List ℕ) (c g : ℕ)
      → drive_of efi device_path h ≡ some g
      → ((i k : ℕ)
          → i < c
          → get_elem? hs i ≡ some k
          → (g' : ℕ) × (drive_of efi device_path k ≡ some g'))
      → (i k : ℕ) → i < suc c
      → get_elem? (h ∷ hs) i ≡ some k
      → (g' : ℕ) × (drive_of efi device_path k ≡ some g')
  cons_lem h hs c g drive rest zero k l at =
      (g, ap (drive_of efi device_path) (sym (some_inj at)) ∙ drive)
  cons_lem h hs c g drive rest (suc i) k l at = rest i k (omega arith) at

  count-other :
      (h : ℕ) (hs : List ℕ)
      → drive_of efi device_path h ≡ none
      → drive_count efi device_path (h ∷ hs) ≡ drive_count efi device_path hs
  count-other h hs e = rw (drive_count, e) refl

  count-drive :
      (h : ℕ) (hs : List ℕ) (g : ℕ)
      → drive_of efi device_path h ≡ some g
      → drive_count efi device_path (h ∷ hs) ≡ 1 + drive_count efi device_path hs
  count-drive h hs g e = rw (drive_count, e) refl

  before_lem : (hs : List ℕ) (c : ℕ) → Before c hs → AllBefore c hs
  before_lem [] c b = (omega arith, λ e i h l at. absurd cc)
  before_lem (h ∷ hs) zero b =
      let rest = before_lem hs 0 (λ i k g at d. absurd (omega (arith, b (suc i) k g at d))) in
      elim (Option-cases (drive_of efi device_path h)) [
        | inl other ↦
            (omega (arith, rest.0, count-other h hs other), λ e i k l at. absurd (omega arith))
        | inr (g, drive) ↦ absurd (omega (arith, b 0 h g refl drive))
      ]
  before_lem (h ∷ hs) (suc c) b =
      let rest = before_lem hs c (λ i k g at d. omega (arith, b (suc i) k g at d)) in
      elim (Option-cases (drive_of efi device_path h)) [
        | inl other ↦
            let n = count-other h hs other in
            (omega (arith, rest.0), λ e. absurd (omega (arith, rest.0)))
        | inr (g, drive) ↦
            let n = count-drive h hs g drive in
            (omega (arith, rest.0), λ e. cons_lem h hs c g drive (rest.1 (omega arith)))
      ]

  -- A filled table.
  pub table_lem :
      (handles : List ℕ) (parts : List Partition)
      → DrivesFirst efi device_path handles
      → Table efi device_path handles (length handles) parts
      → AreFilled parts
  table_lem handles parts first t = AreFilled-of_each parts (λ i q e.
      let inside : i < drive_count efi device_path handles =
        rw (← t.size) (lt-of_get_elem? parts i e) in
      let few = drive_count-le efi device_path handles in
      let (h, at) = get_elem?-of_lt handles i (omega arith) in
      let (g, drive) = (before_lem handles _ first).1 refl i h inside at in
      let full : some q ≡ some (entry efi device_path h (some g) zero_partition) =
        sym e
        ∙ t.filled i h (omega arith) inside at
        ∙ ap (λ o. some (entry efi device_path h o zero_partition)) drive in
      (g, ap (λ (r : Partition). r.guid) (some_inj full)))
