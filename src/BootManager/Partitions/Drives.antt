-- ===== src/BootManager/Partitions/Drives.antt =====
-- The hard drive nodes on a device path, and the two walks along it.
use uefi_game.Prelude.{
  ℕ, suc, ◌+◌, ◌≤◌, ◌<◌, ◌≡◌, refl, ap, inl, inr, arith, if◌then◌else◌, Bool-cases, List, [], ◌∷◌,
  Option, none, some, ok, fault, store_lem, store_fault, length, get_elem?, set, drop, length-set,
  set-set, get_elem?-of_lt, drop-get_elem?, drop-length, Returns, for_loop, for_loop_from_zero,
}
use uefi_game.Efi.{Efi}
use uefi_game.BootManager.Partitions.{
  Node, Partition, is_hard_drive, nodes, count_path, count_handle, fill_path,
}

module _ (efi : Efi) (device_path : ℕ → Option (List Node)) where
  -- The signature of the last hard drive node of a path.
  abbrev pub last_drive : List Node → Option ℕ
  last_drive [] = none
  last_drive (n ∷ path) = elim (last_drive path) [
    | some g ↦ some g
    | none ↦ if is_hard_drive efi device_path n then some n.signature else none
  ]

  abbrev pub drive_of : ℕ → Option ℕ
  drive_of handle = last_drive (nodes efi device_path handle)

  -- How many of the handles are hard drive partitions.
  abbrev pub drive_count : List ℕ → ℕ
  drive_count [] = 0
  drive_count (h ∷ hs) = elim (drive_of h) [ none ↦ drive_count hs | some g ↦ 1 + drive_count hs ]

  abbrev pub entry : ℕ → Option ℕ → Partition → Partition
  entry handle none old = old
  entry handle (some g) old = record { handle = handle; guid = some g }

  abbrev one_if : Option ℕ → ℕ
  one_if none = 0
  one_if (some g) = 1

  count_path_lem :
      (path : List Node) (c : ℕ) → count_path efi device_path path c ≡ c + one_if (last_drive path)
  unfolding count_path
  count_path_lem [] c = omega arith
  count_path_lem (n ∷ path) c = ground (arith, count_path_lem path c)

  drive_count-drop :
      (handles : List ℕ) (i : ℕ) {h : ℕ}
      → get_elem? handles i ≡ some h
      → drive_count (drop i handles) ≡ one_if (drive_of h) + drive_count (drop (suc i) handles)
  drive_count-drop handles i {h} e = rw (drop-get_elem? handles i e) (ground arith)

  pub count_lem :
      (handles : List ℕ)
      → Returns
          (λ c. c ≡ drive_count handles)
          (for_loop (length handles) 0 (count_handle efi device_path handles) 0)
  unfolding count_handle
  count_lem handles =
      let run =
        for_loop_from_zero (λ i c. c + drive_count (drop i handles) ≡ drive_count handles)
          (count_handle efi device_path handles) (length handles)
          (λ i c low e.
            let (h, at) = get_elem?-of_lt handles i low in
            let one : i + 1 ≡ suc i = omega arith in
            let next : drop (i + 1) handles ≡ drop (suc i) handles = ap (λ k. drop k handles) one in
            record {
              out = count_path efi device_path (nodes efi device_path h) c;
              returns = rw at;
              holds = rw next (
                  omega (
                    arith,
                    e,
                    count_path_lem (nodes efi device_path h) c,
                    drive_count-drop handles i at,
                  ));
            })
          0 (omega arith) in
      record {
        out = run.out;
        returns = run.returns;
        holds = omega (arith, run.holds, ap drive_count (drop-length handles));
      }

  pub drive_count-le : (handles : List ℕ) → drive_count handles ≤ length handles
  drive_count-le [] = omega arith
  drive_count-le (h ∷ hs) = ground (arith, drive_count-le hs)

  pub fill_path_lem :
      (i handle : ℕ) (path : List Node) (parts : List Partition) (old : Partition)
      → i < length parts
      → fill_path efi device_path i handle path (set parts i old)
        ≡ ok (set parts i (entry handle (last_drive path) old))
  unfolding fill_path
  fill_path_lem i handle [] parts old h = refl
  fill_path_lem i handle (n ∷ path) parts old h =
      let new : Partition = record { handle = handle; guid = some n.signature } in
      let room : i < length (set parts i old) = rw (length-set parts i old) h in
      elim (Bool-cases (is_hard_drive efi device_path n)) [
        | inl drive ↦
            rw
              (
                drive,
                store_lem (set parts i old) i new room,
                set-set parts i old new,
                fill_path_lem i handle path parts new h,
              )
              (ground arith)
        | inr other ↦ rw (other, fill_path_lem i handle path parts old h) (ground arith)
      ]

  pub fill_path-none :
      (i handle : ℕ) (path : List Node) (parts : List Partition)
      → last_drive path ≡ none
      → fill_path efi device_path i handle path parts ≡ ok parts
  unfolding fill_path
  fill_path-none i handle [] parts e = refl
  fill_path-none i handle (n ∷ path) parts e = ground (arith, fill_path-none i handle path parts)

  pub fill_path_fault :
      (i handle : ℕ) (path : List Node) (parts : List Partition) (g : ℕ)
      → last_drive path ≡ some g
      → length parts ≤ i
      → fill_path efi device_path i handle path parts ≡ fault
  unfolding fill_path
  fill_path_fault i handle [] parts g e h = cc
  fill_path_fault i handle (n ∷ path) parts g e h =
      elim (Bool-cases (is_hard_drive efi device_path n)) [
        | inl drive ↦ rw (drive, store_fault parts i _ h)
        | inr other ↦ rw other (fill_path_fault i handle path parts g (ground arith) h)
      ]
