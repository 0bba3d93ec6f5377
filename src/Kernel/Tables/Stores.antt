-- ===== src/Kernel/Tables/Stores.antt =====
-- What a store of some bytes leaves in the memory.
use uefi_game.Prelude.{
  ℕ, zero, suc, ◌+◌, ◌/◌, ◌%◌, ◌^◌, ◌≤◌, ◌<◌, ◌≡◌, refl, sym, ap, ◌∙◌, ◌⊎◌, false, true, some, List,
  [], ◌∷◌, arith, ◌==◌, length, get_elem?, some_inj,
}
use uefi_game.Kernel.{Memory}
use uefi_game.Kernel.Tables.{
  Gdt, number_in, bytes_of, put, store_bytes, descriptor_in, descriptor_bytes,
}

-- Address `b` is outside of the `n` bytes from `a` on.
abbrev pub Outside : ℕ → ℕ → ℕ → Type 0
Outside a n b = (b < a) ⊎ (a + n ≤ b)

-- A number that `n` bytes can hold.
abbrev pub Fits : ℕ → ℕ → Type 0
Fits zero v = v ≡ 0
Fits (suc n) v = Fits n (v / 256)

put_away : (a v b : ℕ) (m : Memory) → (b < a) ⊎ (a + 1 ≤ b) → put a v m b ≡ m b
put_away a v b m h = let e : (b == a) ≡ false = ground arith in rw e refl

put_here : (a v : ℕ) (m : Memory) → put a v m a ≡ v
put_here a v m = let e : (a == a) ≡ true = ground arith in rw e refl

pub store_away :
    (a : ℕ) (vs : List ℕ) (m : Memory) (b : ℕ)
    → Outside a (length vs) b
    → store_bytes a vs m b ≡ m b
unfolding store_bytes
store_away a [] m b h = refl
store_away a (v ∷ vs) m b h =
    store_away (a + 1) vs (put a v m) b (omega arith) ∙ put_away a v b m (omega arith)

pub store_at :
    (a : ℕ) (vs : List ℕ) (m : Memory) (k v : ℕ)
    → get_elem? vs k ≡ some v
    → store_bytes a vs m (a + k) ≡ v
unfolding store_bytes
store_at a [] m k v e = absurd cc
store_at a (w ∷ vs) m zero v e =
    let z : a + 0 ≡ a = omega arith in
    rw z (store_away (a + 1) vs (put a w m) a (omega arith) ∙ put_here a w m ∙ some_inj e)
store_at a (w ∷ vs) m (suc k) v e =
    let s : a + suc k ≡ a + 1 + k = omega arith in rw s (store_at (a + 1) vs (put a w m) k v e)

pub number_in-same :
    (n a : ℕ) (m m' : Memory)
    → ((b : ℕ) → a ≤ b → b < a + n → m' b ≡ m b)
    → number_in n m' a ≡ number_in n m a
number_in-same zero a m m' h = refl
number_in-same (suc n) a m m' h =
    let first = h a (omega arith) (omega arith) in
    let rest = number_in-same n (a + 1) m m' (λ b l u. h b (omega arith) (omega arith)) in
    omega (arith, first, rest)

pub number_in-store :
    (n a v : ℕ) (m : Memory) → Fits n v → number_in n (store_bytes a (bytes_of n v) m) a ≡ v
unfolding store_bytes
number_in-store zero a v m f = sym f
number_in-store (suc n) a v m f =
    let first =
      store_away (a + 1) (bytes_of n (v / 256)) (put a (v % 256) m) a (omega arith)
      ∙ put_here a (v % 256) m in
    let rest = number_in-store n (a + 1) (v / 256) (put a (v % 256) m) f in
    omega (arith, first, rest)

pub length-bytes_of : (n v : ℕ) → length (bytes_of n v) ≡ n
length-bytes_of zero v = refl
length-bytes_of (suc n) v = omega (arith, length-bytes_of n (v / 256))

pub Fits-eight : (v : ℕ) → v < 2 ^ 64 → Fits 8 v
Fits-eight v h = omega arith

-- The fields are as wide as they are declared.
abbrev pub IsNarrow : Gdt → Type 0
IsNarrow g =
    (g.limit < 0x10000)
    × (g.base1 < 0x10000)
    × (g.base2 < 0x100)
    × (g.access_byte < 0x100)
    × (g.flags < 0x100)
    × (g.base3 < 0x100)

-- The bytes of a descriptor are there.
abbrev pub HasDescriptor : Gdt → Memory → ℕ → Type 0
HasDescriptor g m a = (k v : ℕ) → get_elem? (descriptor_bytes g) k ≡ some v → m (a + k) ≡ v

pub descriptor_lem :
    (g : Gdt) (m : Memory) (a : ℕ) → IsNarrow g → HasDescriptor g m a → descriptor_in m a ≡ g
descriptor_lem g m a n h =
    let z : a + 0 ≡ a = omega arith in
    let b0 : m a ≡ g.limit % 256 = ap m (sym z) ∙ h 0 _ refl in
    let e3 : a + 2 + 1 ≡ a + 3 = omega arith in
    let b3 : m (a + 2 + 1) ≡ g.base1 / 256 % 256 = ap m e3 ∙ h 3 _ refl in
    let limit : number_in 2 m a ≡ g.limit = omega (arith, b0, h 1 _ refl, n.0) in
    let base1 : number_in 2 m (a + 2) ≡ g.base1 = omega (arith, h 2 _ refl, b3, n.1) in
    let base2 : m (a + 4) ≡ g.base2 = h 4 _ refl ∙ omega (arith, n.2) in
    let access_byte : m (a + 5) ≡ g.access_byte = h 5 _ refl ∙ omega (arith, n.3) in
    let flags : m (a + 6) ≡ g.flags = h 6 _ refl ∙ omega (arith, n.4) in
    let base3 : m (a + 7) ≡ g.base3 = h 7 _ refl ∙ omega (arith, n.5) in
    λ i. record {
      limit = limit i;
      base1 = base1 i;
      base2 = base2 i;
      access_byte = access_byte i;
      flags = flags i;
      base3 = base3 i;
    }
