-- ===== src/Disk/Contents.antt =====
-- What `ReadFile` leaves in memory.
use uefi_game.Prelude.{
  ℕ, zero, suc, ◌+◌, ◌-◌, ◌%◌, ◌^◌, ◌≤◌, ◌<◌, ◌≡◌, refl, sym, ◌∙◌, arith, List, [], ◌∷◌, some, ok,
  fault, store, length, set, drop, length-set, get_elem?-of_le, store_lem, lt→ltb, Returns,
  for_loop_from_zero,
}
use mathlib.Core.List.{append-nil}
use uefi_game.Disk.{Firmware, FileData, open_on_second_handle, clear, deliver, read_file}

pub drop-all {ℓ} : {A : Type ℓ} (xs : List A) (n : ℕ) → length xs ≤ n → drop n xs ≡ []
drop-all [] zero h = refl
drop-all [] (suc n) h = refl
drop-all (x ∷ xs) zero h = absurd (omega arith)
drop-all (x ∷ xs) (suc n) h = drop-all xs n (omega arith)

deliver_lem : (bytes buf : List ℕ) → length bytes ≡ length buf → deliver bytes buf ≡ ok bytes
unfolding deliver
deliver_lem bytes buf h = ground (arith, drop-all buf (length bytes), append-nil bytes)

module _ (fw : Firmware) where
  clear_lem :
      (size : ℕ) (buf : List ℕ)
      → length buf ≡ size
      → Returns (λ (b : List ℕ). length b ≡ size) (clear fw size buf)
  unfolding clear
  clear_lem size buf h =
      for_loop_from_zero (λ i (b : List ℕ). length b ≡ size) (λ i b. store b i 0) size
        (λ i b low e. record {
          out = set b i 0;
          returns = store_lem b i 0 (rw e low);
          holds = length-set b i 0 ∙ e;
        })
        buf h

  -- The file on the volume with index 1 is found, and its length is known.
  pub record Found (filename : List ℕ) (file size : ℕ) : Type 0 where
    pub root : ℕ
    pub opened : open_on_second_handle fw filename ≡ ok (root, file)
    pub sized : fw.file_size file ≡ some size

  -- If the pool has room for a file with at least one byte, and all of it is read, then `ReadFile`
  -- returns its length and its bytes, but for the last one, which is replaced by 0.
  pub read_file_lem :
      (filename : List ℕ) (file size : ℕ)
      → Found filename file size
      → length (fw.allocate_pool size) ≡ size
      → length (fw.read_bytes file size) ≡ size
      → 0 < size
      → size < 2 ^ 64
      → Returns
          (λ (r : FileData).
            (r.word_list ≡ set (fw.read_bytes file size) (size - 1) 0) × (r.size ≡ size))
          (read_file fw filename)
  unfolding read_file
  read_file_lem filename file size found room whole some_byte small =
      let c = clear_lem size (fw.allocate_pool size) room in
      let bytes = fw.read_bytes file size in
      let last : (size + 2 ^ 64 - 1) % 2 ^ 64 ≡ size - 1 = omega arith in
      record {
        out = record {
          word_list = set bytes (size - 1) 0;
          size = size;
          status = fw.close_status found.root;
        };
        returns = rw (
          found.opened,
          found.sized,
          c.returns,
          deliver_lem bytes c.out (whole ∙ sym c.holds),
          whole,
          last,
          lt→ltb (size - 1) size (omega arith),
        );
        holds = (refl, refl);
      }

  -- On an empty file it writes outside its buffer.
  pub read_file_empty :
      (filename : List ℕ) (file : ℕ)
      → Found filename file 0
      → length (fw.allocate_pool 0) ≡ 0
      → fw.read_bytes file 0 ≡ []
      → read_file fw filename ≡ fault
  unfolding read_file
  read_file_empty filename file found room nothing =
      rw (found.opened, found.sized, nothing, deliver_lem [] (fw.allocate_pool 0) (sym room))

  -- With fewer than two volumes it faults, whatever the file.
  pub read_file_one_volume :
      (filename handles : List ℕ)
      → fw.locate_handles ≡ some handles
      → length handles ≤ 1
      → read_file fw filename ≡ fault
  unfolding read_file
  read_file_one_volume filename handles e h = rw (e, get_elem?-of_le handles 1 h)
