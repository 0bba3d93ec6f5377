-- ===== src/BootManager3D/Game/Placed.antt =====
-- The map and the textures of `Game`, after `PlaceBootEntries`.
use uefi_game.Prelude.{
  ℕ, ◌+◌, ◌-◌, ◌*◌, ◌^◌, ◌≤◌, ◌<◌, ◌≡◌, sym, ap, ◌∙◌, ◌≢◌, ◌⊎◌, inl, inr, true, ◌||◌, some, List,
  arith, dec_lt, leb, ◌==◌, get_elem?, some_inj, get_elem?-of_lt, Result, Returns, row_major_lt,
}
use uefi_game.Pixels.{Pixel}
use uefi_game.BootManager.Placement.{Textures, Placing, is_escape}
use uefi_game.BootManager.Placement.Places.{Placed}
use uefi_game.BootManager.Icons.Arrays.{AreTextures, texture_at}
use uefi_game.BootManager3D.View.{tex_width, tex_height, Level}
use uefi_game.BootManager3D.Floor.Halves.{HasImages}
use uefi_game.BootManager3D.Rays.{is_positive}
use uefi_game.BootManager3D.Rays.Ends.{Holds, IsWalled, Inner}
use uefi_game.BootManager3D.Walls.Columns.{IsTextured}
use uefi_game.BootManager3D.Game.Moves.{Near, Opens, IsGuarded}

-- The pixels of a texture.
abbrev pub tex_area : ℕ
tex_area = tex_height * tex_width

-- A cell that the player may enter once the boot entries are placed.
abbrev pub MayOpen : Level → ℕ → ℕ → Type 0
MayOpen level y x =
    (v : ℕ) × Holds level y x v × ((v ≡ 0) ⊎ (is_escape level.bootable_start v ≡ true))

-- Two such cells beside a cell inside of the walls have no corner of the walls between them.
abbrev pub IsGuardedBefore : (level : Level) (height : ℕ) → IsWalled level height → Type 0
IsGuardedBefore level height walled =
    (y x ly lx : ℕ)
    → Inner level height walled y x
    → Near y ly
    → Near x lx
    → ly ≢ y
    → lx ≢ x
    → MayOpen level ly x
    → MayOpen level y lx
    → Inner level height walled ly lx

free-cases : (start v : ℕ) → (v == 0 || leb start v) ≡ true → (v ≡ 0) ⊎ (start ≤ v)
free-cases start v e = ground arith

above-positive :
    (start n v : ℕ)
    → 1 < start
    → start ≤ v
    → v < start + n
    → start + n < 2 ^ 31
    → is_positive v ≡ true
above-positive start n v h a b c = ground arith

module _ {E : Type 0} (make : E → ℕ → Textures (List Pixel) → Result (Textures (List Pixel)))
    (rand : ℕ → ℕ) (base : Level) (h : ℕ) (entries : List E)
    (makes : (j : ℕ) (e : E) (c : ℕ) (t : Textures (List Pixel))
      → get_elem? entries j ≡ some e
      → is_escape base.bootable_start c ≡ true
      → AreTextures tex_area base.bootable_start t
      → t.count < 2 ^ 60
      → Returns
          (λ (t' : Textures (List Pixel)).
            AreTextures tex_area base.bootable_start t' × (t'.count ≡ t.count + 1))
          (make e c t))
    (n : ℕ) (p : Placing (List Pixel))
    (a : Placed make rand base.map_width h entries
      (AreTextures tex_area base.bootable_start)
      base.bootable_start
      makes
      base.map
      n
      p) where
  open base use {bootable_start as start}

  abbrev pub after : Level
  after = record base { map = p.map }

  -- What the map held before.
  origin :
      (k v : ℕ)
      → get_elem? p.map k ≡ some v
      → (v < start) × (get_elem? base.map k ≡ some v)
        ⊎ (start ≤ v) × ((c : ℕ) × (get_elem? base.map k ≡ some c) × (is_escape start c ≡ true))
  origin k v e = elim (dec_lt v start) [
    | yes low ↦ inl (low, a.kept k v e low)
    | no high ↦
        let (l, c, now, old, was) = a.placed (v - start) (omega (arith, a.below k v e)) in
        let value : start + (v - start) ≡ v = omega arith in
        let same : k ≡ l = a.once k l v e (now ∙ ap some value) (omega arith) in
        inr (omega arith, (c, ap (get_elem? base.map) same ∙ old, was))
  ]

  module _ (walled : IsWalled base h) (pictures : 1 < start) (few : start + n < 2 ^ 31) where
    pub after-IsWalled : IsWalled after h
    after-IsWalled = record {
      size = a.size;
      wide = walled.wide;
      high = walled.high;
      walls = λ y x hy hx edge.
          let k = y * base.map_width + x in
          let (u, g, positive) = walled.walls y x hy hx edge in
          let (v, e) =
            get_elem?-of_lt p.map k (rw a.size (row_major_lt h base.map_width (y, x) (hy, hx))) in
          (
            v,
            e,
            elim (origin k v e) [
              | inl (_, f) ↦ ap is_positive (some_inj (sym f ∙ g)) ∙ positive
              | inr (above, _) ↦ above-positive start n v pictures above (a.below k v e) few
            ],
          );
    }

    opens_lem : (y x : ℕ) → Opens after y x → MayOpen base y x
    opens_lem y x (v, e, free) = elim (origin (y * base.map_width + x) v e) [
      | inl (low, f) ↦ elim (free-cases start v free) [
        | inl none_there ↦ (v, f, inl none_there)
        | inr high ↦ absurd (omega arith)
      ]
      | inr (_, (c, f, was)) ↦ (c, f, inr was)
    ]

    pub after-IsGuarded : IsGuardedBefore base h walled → IsGuarded after h after-IsWalled
    after-IsGuarded guarded y x ly lx inner ny nx row column oy ox =
        inl (guarded y x ly lx inner ny nx row column (opens_lem ly x oy) (opens_lem y lx ox))

    pub after-IsTextured : IsTextured after p.textures.images
    after-IsTextured k v e positive =
        let low = a.below k v e in
        (omega arith, texture_at tex_area start p.textures v a.good (omega (arith, a.count)))

    pub after-HasImages : HasImages p.textures.images
    after-HasImages =
        let (f, f_there, f_full) =
          texture_at tex_area start p.textures 0 a.good (omega (arith, a.count)) in
        let (c, c_there, c_full) =
          texture_at tex_area start p.textures 1 a.good (omega (arith, a.count)) in
        record {
          floor = f;
          ceiling = c;
          floor_there = f_there;
          ceiling_there = c_there;
          floor_full = f_full;
          ceiling_full = c_full;
        }
