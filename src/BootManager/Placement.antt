-- ===== src/BootManager/Placement.antt =====
-- Application/BootManager2D/src/DemoGame.c, `PlaceBootEntries` (the same text in BootManager3D).
-- `make` is the call of `MakeBootEntryTexture` on an entry, the texture index below it and the
-- textures; `rand i` is the value of the call of `rand` for entry `i`. A cell of the map is an
-- `INTN`, kept as its 64 bits.
pub mod Count
pub mod Sweep
pub mod Places
use uefi_game.Prelude.{
  ℕ, ◌+◌, ◌-◌, ◌*◌, ◌%◌, ◌^◌, Bool, ◌&&◌, ◌==◌, leb, ltb, if◌then◌else◌, wrap, List, Result, ok,
  fault, ◌>>=◌, load, store, for_loop,
}

-- The array of textures and `*TexturesCount`.
pub record Textures (I : Type 0) : Type 0 where
  pub images : List I
  pub count : ℕ

pub record Placing (I : Type 0) : Type 0 where
  pub map : List ℕ
  pub textures : Textures I
  pub escape_count : ℕ

-- `#define escapes 12`
abbrev pub escapes : ℕ
escapes = 12

-- `cell >= 10 && cell < bootable_start`: the first comparison is signed, the second is not.
unfoldable pub is_escape : ℕ → ℕ → Bool
is_escape start cell = leb 10 cell && ltb cell (2 ^ 63) && ltb cell start

-- `rand() % (escapes - i)`
pub pick : ℕ → ℕ → Result ℕ
unfolding wrap
pick random i =
    let left = wrap (escapes + 2 ^ 64 - i) in if left == 0 then fault else ok (random % left)

module _ {E I : Type 0} (make : E → ℕ → Textures I → Result (Textures I)) (rand : ℕ → ℕ)
    (width height : ℕ) (entries : List E) where
  pub take_cell : ℕ → ℕ → ℕ → Placing I → Result (Placing I)
  take_cell i at cell p = do
    map ← store p.map at p.textures.count
    entry ← load entries i
    textures ← make entry cell p.textures
    ok (record { map = map; textures = textures; escape_count = p.escape_count + 1 })

  -- The body of the loops over `x` and `y`.
  pub place_cell : ℕ → ℕ → ℕ → ℕ → ℕ → Placing I → Result (Placing I)
  unfolding take_cell is_escape
  place_cell start i rand_index x y p = do
    let at = wrap (y * width + x)
    cell ← load p.map at
    let chosen =
        if p.escape_count == rand_index
        then take_cell i at cell p
        else ok (record p { escape_count = p.escape_count + 1 })
    if is_escape start cell then chosen else ok p

  pub place_entry : ℕ → ℕ → Placing I → Result (Placing I)
  unfolding for_loop pick place_cell
  place_entry start i p = do
    rand_index ← pick (rand i) i
    for_loop width 0 (λ x. for_loop height 0 (place_cell start i rand_index x))
        (record p { escape_count = 0 })

  unfoldable pub place_boot_entries : ℕ → List ℕ → Textures I → Result (Placing I)
  unfolding for_loop place_entry
  place_boot_entries entries_count map textures =
      for_loop entries_count 0 (place_entry textures.count)
        (record { map = map; textures = textures; escape_count = 0 })
