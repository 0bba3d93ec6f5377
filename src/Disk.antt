-- ===== src/Disk.antt =====
-- `ReadFile` of Application/Wordle/Wordle.c (Application/Maze/Maze.c holds the same text). The
-- firmware is a parameter: a call that sets no output pointer is `none`, and the first use of that
-- pointer faults, since the code looks at no status. A null pointer from `AllocatePool` is an empty
-- buffer: any access to it faults.
pub mod Contents
use uefi_game.Prelude.{
  ℕ, ◌+◌, ◌-◌, ◌^◌, ltb, if◌then◌else◌, wrap, List, [], ◌∷◌, ◌++◌, Option, Result, ok, fault, ◌>>=◌,
  or_fault, load, store, length, drop, for_loop,
}

pub record Firmware : Type 0 where
  pub locate_handles : Option (List ℕ)
  pub file_system : ℕ → Option ℕ
  pub open_volume : ℕ → Option ℕ
  pub open_file : ℕ → List ℕ → Option ℕ
  pub file_size : ℕ → Option ℕ
  pub allocate_pool : ℕ → List ℕ
  pub read_bytes : ℕ → ℕ → List ℕ
  pub close_status : ℕ → ℕ

-- What `ReadFile` stores through its pointers, and returns.
pub record FileData : Type 0 where
  pub word_list : List ℕ
  pub size : ℕ
  pub status : ℕ

-- `Read` puts the bytes at the start of the buffer.
unfoldable pub deliver : List ℕ → List ℕ → Result (List ℕ)
deliver bytes buf =
    if ltb (length buf) (length bytes) then fault else ok (bytes ++ drop (length bytes) buf)

module _ (fw : Firmware) where
  pub open_on_second_handle : List ℕ → Result (ℕ × ℕ)
  open_on_second_handle filename = do
    handles ← or_fault fw.locate_handles
    handle ← load handles 1
    fs ← or_fault (fw.file_system handle)
    root ← or_fault (fw.open_volume fs)
    file ← or_fault (fw.open_file root filename)
    ok (root, file)

  -- `for (INTN i = 0; i < *size; ++i) (*word_list)[i] = 0;`
  pub clear : ℕ → List ℕ → Result (List ℕ)
  unfolding for_loop
  clear size buf = for_loop size 0 (λ i b. store b i 0) buf

  unfoldable pub read_file : List ℕ → Result FileData
  unfolding open_on_second_handle clear deliver wrap
  read_file filename = do
    (root, file) ← open_on_second_handle filename
    size ← or_fault (fw.file_size file)
    cleared ← clear size (fw.allocate_pool size)
    let bytes = fw.read_bytes file size
    filled ← deliver bytes cleared
    word_list ← store filled (wrap (length bytes + 2 ^ 64 - 1)) 0
    ok (record { word_list = word_list; size = length bytes; status = fw.close_status root })
