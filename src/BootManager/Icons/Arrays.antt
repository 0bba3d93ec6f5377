-- ===== src/BootManager/Icons/Arrays.antt =====
-- The array of textures while `MakeBootEntryTexture` appends to it.
use uefi_game.Prelude.{
  ℕ, zero, suc, ◌+◌, ◌≤◌, ◌<◌, ◌≡◌, sym, ◌⊎◌, inl, inr, some, List, [], ◌∷◌, ◌++◌, arith, length,
  get_elem?, some_inj, length-append, get_elem?-of_lt,
}
use uefi_game.Pixels.{Pixel}
use uefi_game.BootManager.Placement.{Textures}

-- As many images as the count says, `start` or more, each of `cells` pixels or more.
pub record AreTextures (cells start : ℕ) (t : Textures (List Pixel)) : Type 0 where
  pub count : t.count ≡ length t.images
  pub start_le : start ≤ length t.images
  pub full : (k : ℕ) (image : List Pixel) → get_elem? t.images k ≡ some image → cells ≤ length image

get_elem?-append_cases {ℓ} :
    {A : Type ℓ} (xs : List A) (x : A) (k : ℕ) {a : A}
    → get_elem? (xs ++ x ∷ []) k ≡ some a
    → (get_elem? xs k ≡ some a) ⊎ (a ≡ x)
get_elem?-append_cases [] x zero e = inr (sym (some_inj e))
get_elem?-append_cases [] x (suc k) e = cc
get_elem?-append_cases (y ∷ xs) x zero e = inl e
get_elem?-append_cases (y ∷ xs) x (suc k) e = get_elem?-append_cases xs x k e

pub AreTextures-append :
    (cells start : ℕ) (t : Textures (List Pixel)) (texture : List Pixel)
    → AreTextures cells start t
    → cells ≤ length texture
    → AreTextures cells start (record { images = t.images ++ texture ∷ []; count = t.count + 1 })
AreTextures-append cells start t texture a full = record {
  count = omega (arith, a.count, length-append t.images (texture ∷ []));
  start_le = omega (arith, a.start_le, length-append t.images (texture ∷ []));
  full = λ k image e. elim (get_elem?-append_cases t.images texture k e) [
    | inl old ↦ a.full k image old
    | inr new ↦ rw new full
  ];
}

-- An image of the array.
pub texture_at :
    (cells start : ℕ) (t : Textures (List Pixel)) (k : ℕ)
    → AreTextures cells start t
    → k < t.count
    → (image : List Pixel) × (get_elem? t.images k ≡ some image) × (cells ≤ length image)
texture_at cells start t k a low =
    let (image, there) = get_elem?-of_lt t.images k (omega (arith, a.count)) in
    (image, there, a.full k image there)
