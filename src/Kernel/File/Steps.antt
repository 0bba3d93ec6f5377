-- ===== src/Kernel/File/Steps.antt =====
-- Every outcome of `LoadFile`.
use uefi_game.Prelude.{
  ℕ, ◌+◌, ◌*◌, ◌^◌, ◌≤◌, ◌<◌, ◌≡◌, refl, inl, inr, true, false, Option, some, List, arith,
  Bool-cases, Result, Returns, Returns-ok,
}
use uefi_game.Kernel.{Memory}
use uefi_game.Kernel.File.{
  KernelFirmware, LoadedFile, unloaded, page_count, read_pages, opened, load_file,
}

-- A call that succeeds sets its pointer.
abbrev pub SetsPointer : KernelFirmware → ℕ × Option ℕ → Type 0
SetsPointer fw call = fw.efi_error call.0 ≡ false → (h : ℕ) × (call.1 ≡ some h)

-- The calls set their pointers, and no file is as long as the address space.
pub record IsSound (fw : KernelFirmware) (file_name : List ℕ) : Type 0 where
  pub located : SetsPointer fw fw.simple_file
  pub volume : (fs : ℕ) → SetsPointer fw (fw.open_volume fs)
  pub file : (root : ℕ) → SetsPointer fw (fw.open_file root file_name)
  pub short : (file : ℕ) → (fw.file_size file).1 < 2 ^ 63

-- As many pages as hold the file, and no more.
pub record HasPages (f : LoadedFile) (size pages : ℕ) : Type 0 where
  pub stored : f.file_page_size ≡ some pages
  pub enough : size ≤ 4096 * pages
  pub few : 4096 * pages < size + 4096

module _ (fw : KernelFirmware) where
  abbrev pub Fails : {A : Type 0} → ℕ × A → Type 0
  Fails call = fw.efi_error call.0 ≡ true

  abbrev pub Gives : {A : Type 0} → ℕ × A → A → Type 0
  Gives call v = (fw.efi_error call.0 ≡ false) × (call.1 ≡ v)

  -- The file with this name is open, as the last of the calls that have all succeeded.
  pub record IsOpened (file_name : List ℕ) (file : ℕ) : Type 0 where
    pub system : ℕ
    pub root : ℕ
    pub located : Gives fw.simple_file (some system)
    pub volume : Gives (fw.open_volume system) (some root)
    pub opens : Gives (fw.open_file root file_name) (some file)

  -- The first step that fails, and what is stored by then; or the file is read.
  pub data Outcome (file_name : List ℕ) (m : Memory) (f : LoadedFile) : Type 0 where
    no_system : Fails fw.simple_file → f ≡ unloaded fw.simple_file.0 m → Outcome file_name m f
    no_volume :
        (system : ℕ)
        → Gives fw.simple_file (some system)
        → Fails (fw.open_volume system)
        → f ≡ unloaded (fw.open_volume system).0 m
        → Outcome file_name m f
    no_file :
        (system root : ℕ)
        → Gives fw.simple_file (some system)
        → Gives (fw.open_volume system) (some root)
        → Fails (fw.open_file root file_name)
        → f ≡ unloaded (fw.open_file root file_name).0 m
        → Outcome file_name m f
    no_info :
        (file : ℕ)
        → IsOpened file_name file
        → Fails (fw.file_size file)
        → f ≡ unloaded (fw.file_size file).0 m
        → Outcome file_name m f
    no_pages :
        (file size pages : ℕ)
        → IsOpened file_name file
        → Gives (fw.file_size file) size
        → HasPages f size pages
        → Fails (fw.allocate_pages pages)
        → f.status ≡ (fw.allocate_pages pages).0
        → f.memory ≡ m
        → Outcome file_name m f
    done :
        (file size pages addr : ℕ)
        → IsOpened file_name file
        → Gives (fw.file_size file) size
        → HasPages f size pages
        → Gives (fw.allocate_pages pages) addr
        → f.file_addr ≡ some addr
        → (f.status ≡ (fw.read file size addr m).0)
        → (f.memory ≡ (fw.read file size addr m).1)
        → Outcome file_name m f

  pages_lem : (n : ℕ) → n < 2 ^ 63 → (n ≤ 4096 * page_count n) × (4096 * page_count n < n + 4096)
  unfolding page_count
  pages_lem n h = (omega arith, omega arith)

  pages_of :
      (f : LoadedFile) (n : ℕ)
      → n < 2 ^ 63
      → f.file_page_size ≡ some (page_count n)
      → HasPages f n (page_count n)
  pages_of f n h e = let b = pages_lem n h in record { stored = e; enough = b.0; few = b.1 }

  read_lem :
      (file_name : List ℕ) (file size : ℕ) (m : Memory)
      → size < 2 ^ 63
      → IsOpened file_name file
      → Gives (fw.file_size file) size
      → Outcome file_name m (read_pages fw file size m)
  unfolding read_pages
  read_lem file_name file size m small o g =
      let pages = page_count size in
      let allocated = fw.allocate_pages pages in
      elim (Bool-cases (fw.efi_error allocated.0)) [
        | inl e ↦ rw e (no_pages file size pages o g (pages_of _ size small refl) e refl refl)
        | inr e ↦ rw e (
            done file size pages allocated.1 o g (pages_of _ size small refl) (e, refl) refl refl
              refl)
      ]

  opened_lem :
      {P : LoadedFile → Type 0} (call : ℕ × Option ℕ) (m : Memory) (rest : ℕ → Result LoadedFile)
      → SetsPointer fw call
      → (Fails call → P (unloaded call.0 m))
      → ((h : ℕ) → Gives call (some h) → Returns P (rest h))
      → Returns P (opened fw call m rest)
  opened_lem call m rest is_set b f = elim (Bool-cases (fw.efi_error call.0)) [
    | inl e ↦ rw e (Returns-ok (b e))
    | inr e ↦ let (h, there) = is_set e in rw (e, there) (f h (e, there))
  ]

  -- If the calls that succeed set their pointers, and files are shorter than 2 ^ 63, `LoadFile`
  -- never faults. If locating the file system, opening the volume, opening the file or asking for
  -- its size fails, it returns the status of the first of these that fails, with nothing stored.
  -- If none does, it stores a number of pages that hold the file of that size, and no more than
  -- needed, and asks for them; if they are not given, it returns that status and nothing is read;
  -- else it stores their address, reads the file of that size to it, and returns the status of
  -- `Read`.
  pub load_file_lem :
      (file_name : List ℕ) (m : Memory)
      → IsSound fw file_name
      → Returns (Outcome file_name m) (load_file fw file_name m)
  unfolding load_file
  load_file_lem file_name m sound =
      opened_lem fw.simple_file m _ sound.located (λ e. no_system e refl)
        λ system a.
          opened_lem (fw.open_volume system) m _ (sound.volume system)
            (λ e. no_volume system a e refl)
            λ root b.
              opened_lem (fw.open_file root file_name) m _ (sound.file root)
                (λ e. no_file system root a b e refl)
                λ file c.
                  let o : IsOpened file_name file = record {
                    system = system;
                    root = root;
                    located = a;
                    volume = b;
                    opens = c;
                  } in
                  elim (Bool-cases (fw.efi_error (fw.file_size file).0)) [
                    | inl e ↦ rw e (Returns-ok (no_info file o e refl))
                    | inr e ↦ rw e (
                        Returns-ok (
                          read_lem file_name file (fw.file_size file).1 m (sound.short file) o
                            (e, refl)))
                  ]
