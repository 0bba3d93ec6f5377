-- ===== src/BootManager/Partitions/Table.antt =====
-- When the table of partitions is filled, and when a write runs over its end.
use uefi_game.Prelude.{
  ℕ, ◌+◌, ◌*◌, ◌^◌, ◌≤◌, ◌<◌, ◌≡◌, refl, sym, ap, ◌∙◌, ◌⊎◌, inl, inr, arith, false, Bool-cases,
  wrap, wrap_lem, List, [], ◌∷◌, Option, some, some_inj, ok, fault, store_size, load-cases, length,
  get_elem?, set, replicate, length-replicate, get_elem?-replicate, length-set, set-get_elem?,
  get_elem?-set_self, get_elem?-set_ne, get_elem?-of_lt, lt-of_get_elem?, Returns, Returns-ok,
  for_loop, for_loop_from_zero, for_loop_fault, Option-cases, dec_lt,
}
use uefi_game.Efi.{Efi}
use uefi_game.BootManager.Partitions.{
  Node, Partition, zero_partition, Located, is_hard_drive, nodes, count_handle, fill_path,
  fill_handle, locate_fs_partitions,
}
use uefi_game.BootManager.Partitions.Drives.{
  drive_of, drive_count, entry, drive_count-le, count_lem, fill_path_lem, fill_path-none,
  fill_path_fault,
}

module _ (efi : Efi) (device_path : ℕ → Option (List Node)) (handles : List ℕ) where
  -- Every hard drive partition comes before the index `drive_count efi device_path handles`.
  abbrev pub DrivesFirst : Type 0
  DrivesFirst =
      (i h g : ℕ)
      → get_elem? handles i ≡ some h
      → drive_of efi device_path h ≡ some g
      → i < drive_count efi device_path handles

  -- The table after the handles before `n`.
  pub record Table (n : ℕ) (parts : List Partition) : Type 0 where
    pub size : length parts ≡ drive_count efi device_path handles
    pub filled :
        (i h : ℕ)
        → i < n
        → i < drive_count efi device_path handles
        → get_elem? handles i ≡ some h
        → get_elem? parts i
          ≡ some (entry efi device_path h (drive_of efi device_path h) zero_partition)
    pub blank :
        (i : ℕ)
        → n ≤ i
        → i < drive_count efi device_path handles
        → get_elem? parts i ≡ some zero_partition

  fill_round :
      (i : ℕ) (parts : List Partition)
      → DrivesFirst
      → i < length handles
      → Table i parts
      → Returns (Table (i + 1)) (fill_handle efi device_path handles i parts)
  unfolding fill_handle
  fill_round i parts first low t =
      let (h, at) = get_elem?-of_lt handles i low in
      elim (dec_lt i (drive_count efi device_path handles)) [
        | yes inside ↦
            let room : i < length parts = rw t.size inside in
            let new = entry efi device_path h (drive_of efi device_path h) zero_partition in
            let same = set-get_elem? parts i (t.blank i (omega arith) inside) in
            record {
              out = set parts i new;
              returns = rw at (
                  ap (fill_path efi device_path i h (nodes efi device_path h)) (sym same)
                  ∙ fill_path_lem efi device_path i h (nodes efi device_path h) parts zero_partition
                      room);
              holds = record {
                size = length-set parts i new ∙ t.size;
                filled = λ j k lj inj e. elim (dec_lt j i) [
                  | yes l ↦ get_elem?-set_ne parts i j new (omega arith) ∙ t.filled j k l inj e
                  | no l ↦
                      let s : i ≡ j = omega arith in
                      let hk : h ≡ k = some_inj (sym at ∙ ap (get_elem? handles) s ∙ e) in
                      rw (← s, ← hk) (get_elem?-set_self parts i new room)
                ];
                blank = λ j lj inj.
                    get_elem?-set_ne parts i j new (omega arith) ∙ t.blank j (omega arith) inj;
              };
            }
        | no outside ↦ elim (Option-cases (drive_of efi device_path h)) [
          | inl other ↦ record {
            out = parts;
            returns =
                rw at (fill_path-none efi device_path i h (nodes efi device_path h) parts other);
            holds = record {
              size = t.size;
              filled = λ j k lj inj e. t.filled j k (omega arith) inj e;
              blank = λ j lj inj. t.blank j (omega arith) inj;
            };
          }
          | inr (g, drive) ↦ absurd (outside (first i h g at drive))
        ]
      ]

  fill_path_keeps :
      (i handle n : ℕ) (path : List Node) (parts : List Partition)
      → length parts ≡ n
      → (fill_path efi device_path i handle path parts ≡ fault)
        ⊎ Returns
            (λ (p : List Partition). length p ≡ n)
            (fill_path efi device_path i handle path parts)
  unfolding fill_path
  fill_path_keeps i handle n [] parts e = inr (Returns-ok e)
  fill_path_keeps i handle n (d ∷ path) parts e =
      elim (Bool-cases (is_hard_drive efi device_path d)) [
        | inl drive ↦
            elim (store_size parts i (record { handle = handle; guid = some d.signature }) n e) [
              | inl stops ↦ inl (rw (drive, stops))
              | inr goes ↦
                  rw (drive, goes.returns) (fill_path_keeps i handle n path goes.out goes.holds)
            ]
        | inr other ↦ rw other (fill_path_keeps i handle n path parts e)
      ]

  fill_keeps :
      (i : ℕ) (parts : List Partition)
      → length parts ≡ drive_count efi device_path handles
      → (fill_handle efi device_path handles i parts ≡ fault)
        ⊎ Returns
            (λ (p : List Partition). length p ≡ drive_count efi device_path handles)
            (fill_handle efi device_path handles i parts)
  unfolding fill_handle
  fill_keeps i parts e = elim (load-cases handles i) [
    | inl stops ↦ inl (rw stops)
    | inr (h, at) ↦ rw at (fill_path_keeps i h _ (nodes efi device_path h) parts e)
  ]

  Table-blank : Table 0 (replicate (drive_count efi device_path handles) zero_partition)
  Table-blank = record {
    size = length-replicate _ zero_partition;
    filled = λ i h l. absurd (omega arith);
    blank = λ i l inj. get_elem?-replicate _ i zero_partition inj;
  }

  counted :
      for_loop (length handles) 0 (count_handle efi device_path handles) 0
      ≡ ok (drive_count efi device_path handles)
  counted = let c = count_lem efi device_path handles in c.returns ∙ ap ok c.holds

  module _ (zero_pool : ℕ → Option (List Partition)) (found : ℕ)
      (success : efi.efi_error found ≡ false) (small : length handles < 2 ^ 32)
      (room : zero_pool (drive_count efi device_path handles * 16)
        ≡ some (replicate (drive_count efi device_path handles) zero_partition)) where
    bytes :
        wrap (drive_count efi device_path handles * 16) ≡ drive_count efi device_path handles * 16
    bytes = wrap_lem _ (omega (arith, drive_count-le efi device_path handles))

    -- If the hard drive partitions come first among the handles, the table is filled without a
    -- fault: it has an entry for each of them, with its handle and the signature of the last hard
    -- drive node of its path, and the count says how many there are.
    pub locate_fs_partitions_lem :
        DrivesFirst
        → Returns
            (λ (l : Located).
              (l.status ≡ found)
              × (l.partitions_count ≡ drive_count efi device_path handles)
              × Table (length handles) l.partitions)
            (locate_fs_partitions efi device_path zero_pool found handles)
    unfolding locate_fs_partitions
    locate_fs_partitions_lem first =
        let count = drive_count efi device_path handles in
        let run =
          for_loop_from_zero Table (fill_handle efi device_path handles) (length handles)
            (λ i parts low t. fill_round i parts first low t) (replicate count zero_partition)
            Table-blank in
        rw (success, counted, bytes, room, run.returns) (Returns-ok (refl, refl, run.holds))

    -- If one of them comes later, an entry is written behind the end of the table.
    pub locate_fs_partitions_overrun :
        (i h g : ℕ)
        → get_elem? handles i ≡ some h
        → drive_of efi device_path h ≡ some g
        → drive_count efi device_path handles ≤ i
        → locate_fs_partitions efi device_path zero_pool found handles ≡ fault
    unfolding locate_fs_partitions
    locate_fs_partitions_overrun i h g at drive late =
        let count = drive_count efi device_path handles in
        rw (
          success,
          counted,
          bytes,
          room,
          for_loop_fault (λ (p : List Partition). length p ≡ count)
              (fill_handle efi device_path handles) (λ j parts e. fill_keeps j parts e) i
              (λ parts e. rw at (
                fill_path_fault efi device_path i h (nodes efi device_path h) parts g drive
                  (rw e late)))
              (length handles) 0 (replicate count zero_partition) (omega arith)
              (omega (arith, lt-of_get_elem? handles i at)) (length-replicate count zero_partition),
        )
