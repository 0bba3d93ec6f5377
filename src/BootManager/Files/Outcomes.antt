-- ===== src/BootManager/Files/Outcomes.antt =====
-- What `ReadFile` of the boot manager returns, whatever the firmware answers.
use uefi_game.Prelude.{
  ℕ, ◌≤◌, ◌≡◌, refl, ◌⊎◌, inl, inr, true, false, Option, none, some, fault, Option-cases, List,
  ◌++◌, arith, Bool-cases, length, drop, ok, Returns, Returns-ok,
}
use uefi_game.Efi.{Efi}
use uefi_game.Disk.{deliver}
use uefi_game.BootManager.Files.{BootServices, FileRead, unread, read_file}

module _ (efi : Efi) where
  open efi use {efi_error}

  abbrev pub Fails : ℕ × Option ℕ → Type 0
  Fails call = efi_error call.0 ≡ true

  abbrev pub Gives : ℕ × Option ℕ → ℕ → Type 0
  Gives call v = (efi_error call.0 ≡ false) × (call.1 ≡ some v)

  -- A call that reports success sets its pointer; the pool has room, and `Read` keeps to its size.
  pub record IsSound (bs : BootServices) : Type 0 where
    pub file_system :
        (h : ℕ) → efi_error (bs.file_system h).0 ≡ false → (v : ℕ) × ((bs.file_system h).1 ≡ some v)
    pub open_volume :
        (v : ℕ) → efi_error (bs.open_volume v).0 ≡ false → (r : ℕ) × ((bs.open_volume v).1 ≡ some r)
    pub open_file :
        (r : ℕ) (name : List ℕ)
        → efi_error (bs.open_file r name).0 ≡ false
        → (f : ℕ) × ((bs.open_file r name).1 ≡ some f)
    pub room : (n : ℕ) → length (bs.zero_pool n) ≡ n
    pub fits : (f n : ℕ) → length (bs.read_bytes f n).1 ≤ n

  module _ (bs : BootServices) (handle : ℕ) (name : List ℕ) where
    pub data Outcome (r : FileRead) : Type 0 where
      no_system : Fails (bs.file_system handle) → r ≡ unread (bs.file_system handle).0 → Outcome r
      no_volume :
          (fs : ℕ)
          → Gives (bs.file_system handle) fs
          → Fails (bs.open_volume fs)
          → r ≡ unread (bs.open_volume fs).0
          → Outcome r
      no_file :
          (fs root : ℕ)
          → Gives (bs.file_system handle) fs
          → Gives (bs.open_volume fs) root
          → Fails (bs.open_file root name)
          → r ≡ unread (bs.open_file root name).0
          → Outcome r
      read :
          (fs root file size : ℕ)
          → Gives (bs.file_system handle) fs
          → Gives (bs.open_volume fs) root
          → Gives (bs.open_file root name) file
          → bs.file_size file ≡ some size
          → r ≡ record {
            status = (bs.read_bytes file size).0;
            contents = some (
              (bs.read_bytes file size).1
                  ++ drop (length (bs.read_bytes file size).1) (bs.zero_pool size),
              length (bs.read_bytes file size).1,
            );
          }
          → Outcome r

    -- The file is open, and `FileHandleGetInfo` gives a null pointer.
    pub record LacksInfo : Type 0 where
      pub fs : ℕ
      pub root : ℕ
      pub file : ℕ
      pub located : Gives (bs.file_system handle) fs
      pub volume : Gives (bs.open_volume fs) root
      pub opens : Gives (bs.open_file root name) file
      pub null : bs.file_size file ≡ none

    module _ (sound : IsSound bs) where
      delivered :
          (file size : ℕ)
          → deliver (bs.read_bytes file size).1 (bs.zero_pool size)
            ≡ ok (
                (bs.read_bytes file size).1
                ++ drop (length (bs.read_bytes file size).1) (bs.zero_pool size))
      unfolding deliver
      delivered file size = ground (arith, sound.room size, sound.fits file size)

      -- A call that reports success sets its pointer, the pool has room, and `Read` keeps to its
      -- size. If the file is open and `FileHandleGetInfo` gives a null pointer for it, `ReadFile`
      -- faults: it reads through this pointer. Else it returns the status of the first call that
      -- fails, and then stores nothing; if none fails, it stores the bytes that `Read` has
      -- delivered, in front of what the cleared buffer held, and their number, and returns the
      -- status of `Read`.
      pub read_file-Outcome :
          LacksInfo × (read_file efi bs handle (some name) ≡ fault)
          ⊎ Returns Outcome (read_file efi bs handle (some name))
      unfolding read_file
      read_file-Outcome = elim (Bool-cases (efi_error (bs.file_system handle).0)) [
        | inl bad ↦ inr (rw bad (Returns-ok (no_system bad refl)))
        | inr good ↦
            let (fs, at) = sound.file_system handle good in
            elim (Bool-cases (efi_error (bs.open_volume fs).0)) [
              | inl bad ↦ inr (rw (good, at, bad) (Returns-ok (no_volume fs (good, at) bad refl)))
              | inr good' ↦
                  let (root, at') = sound.open_volume fs good' in
                  elim (Bool-cases (efi_error (bs.open_file root name).0)) [
                    | inl bad ↦ inr (
                        rw (good, at, good', at', bad)
                          (Returns-ok (no_file fs root (good, at) (good', at') bad refl)))
                    | inr good'' ↦
                        let (file, at'') = sound.open_file root name good'' in
                        elim (Option-cases (bs.file_size file)) [
                          | inl null ↦ inl (
                            record {
                              fs = fs;
                              root = root;
                              file = file;
                              located = (good, at);
                              volume = (good', at');
                              opens = (good'', at'');
                              null = null;
                            },
                            rw (good, at, good', at', good'', at'', null),
                          )
                          | inr (size, sized) ↦ inr (
                              rw (good, at, good', at', good'', at'', sized, delivered file size)
                                (Returns-ok (
                                  read fs root file size (good, at) (good', at') (good'', at'')
                                    sized refl)))
                        ]
                  ]
            ]
      ]
