-- ===== src/BootManager/Main/Finish.antt =====
-- The end of `UefiMain`: the entry of the game is booted.
use uefi_game.Prelude.{
  ap, ◌+◌, load_lem, ℕ, ◌<◌, ◌≡◌, refl, ◌∙◌, ◌⊎◌, inl, inr, false, Option, none, some, List, ◌==◌,
  Bool-cases, ==→eq, ==→ne, length, get_elem?, get_elem?-of_lt, ok, Returns, Returns-ok,
}
use uefi_game.BootManager.Entries.{BootEntry, Config}
use uefi_game.BootManager.Partitions.{Partition}
use uefi_game.BootManager.Walk.{escape_entry}
use uefi_game.BootManager.Boot.{
  Platform, Booted, Outcome, returns, unstarted, start_child, start_from, boot_entry,
}
use uefi_game.BootManager.Boot.First.{first_with, start_first, boot_entry_lem}
use uefi_game.BootManager.Main.{Files, finish}
use uefi_game.BootManager.Main.Setup.{IsInstalled, IsRead, config_of-size}

module _ (p : Platform) where
  open p use {efi}

  -- `LoadImage`, if it succeeds, sets the handle, and this has a protocol.
  abbrev pub Loads : Type 0
  Loads =
      (handle : ℕ) (name : Option (List ℕ))
      → efi.efi_error (p.load_image handle name).0 ≡ false
      → (child : ℕ) × (protocol : ℕ) × ((p.load_image handle name).1 ≡ some child)
        × (p.loaded_image child ≡ some protocol)

  start_lem :
      (entry : BootEntry) (o : Option Partition)
      → Loads
      → (b : Booted) × (start_first p entry o ≡ ok b)
  unfolding start_from start_child
  start_lem entry none h = (_, refl)
  start_lem entry (some q) h =
      elim (Bool-cases (efi.efi_error (p.load_image q.handle entry.loader_name).0)) [
        | inl fails ↦ rw fails (_, refl)
        | inr good ↦
            let (child, protocol, loaded, there) = h q.handle entry.loader_name good in
            rw (good, loaded, there) (_, refl)
      ]

  module _ (filename : List ℕ) (i : IsInstalled p filename) (f : Files)
      (r : IsRead p filename i f) where
    -- The entry of the configuration file with this number is booted: from the first partition with
    -- its GUID, if there is one.
    pub record Boots (entry_to_boot : ℕ) (o : Outcome) : Type 0 where
      pub entry : BootEntry
      pub booted : Booted
      pub chosen : get_elem? f.config.result entry_to_boot ≡ some entry
      pub starts :
          start_first p entry (first_with (p.str_to_guid entry.volume_guid) f.located.partitions)
          ≡ ok booted
      pub outcome : o ≡ returns booted

    pub range_lem :
        (n : ℕ)
        → (n ≡ escape_entry) ⊎ (n < length i.entries.more + 1)
        → (n ≡ escape_entry) ⊎ (n < length f.config.result)
    range_lem n (inl e) = inl e
    range_lem n (inr l) =
        let size : length f.config.result ≡ length i.entries.more + 1 =
          ap (λ (c : Config). length c.result) r.config ∙ config_of-size p i.entries in
        inr (rw size l)

    pub finish_lem :
        (status entry_to_boot : ℕ)
        → Loads
        → (entry_to_boot ≡ escape_entry) ⊎ (entry_to_boot < length f.config.result)
        → Returns
            (λ (o : Outcome).
              (entry_to_boot ≡ escape_entry) × (o ≡ returns (unstarted status))
              ⊎ Boots entry_to_boot o)
            (finish p f status entry_to_boot)
    unfolding finish
    finish_lem status n h c = elim (Bool-cases (n == escape_entry)) [
      | inl escapes ↦ rw escapes (Returns-ok (inl (==→eq n escape_entry escapes, refl)))
      | inr chosen ↦
          let low : n < length f.config.result = elim c [
            | inl e ↦ absurd (==→ne n escape_entry chosen e)
            | inr l ↦ l
          ] in
          let (entry, at) = get_elem?-of_lt f.config.result n low in
          let (b, starts) =
            start_lem entry (first_with (p.str_to_guid entry.volume_guid) f.located.partitions) h in
          let run =
            ap (boot_entry p entry f.located.partitions) r.located.1
            ∙ boot_entry_lem p entry f.located.partitions r.located.2
            ∙ starts in
          rw (chosen, load_lem f.config.result n at, run)
            (Returns-ok (
              inr (record {
                entry = entry;
                booted = b;
                chosen = at;
                starts = starts;
                outcome = refl;
              })))
    ]
