-- ===== src/BootManager/Main/Loads.antt =====
-- The textures of `UefiMain`.
use uefi_game.Prelude.{
  ℕ, ◌+◌, ◌*◌, ◌^◌, ◌<◌, ◌≡◌, refl, sym, ap, ◌∙◌, false, Option, some, List, [], ◌∷◌, ◌++◌, arith,
  wrap, wrap_lem, length, replicate, drop, length-append, Result, ok, Returns, Returns-ok,
  Returns-map, store_lem, for_loop, drop-cons, set-append, append_step,
}
use uefi_game.Pixels.{Pixel}
use uefi_game.BootManager.Bmp.{Image, Bmp, read_bmp}
use uefi_game.BootManager.Boot.{Platform}
use uefi_game.BootManager.Main.{Loading, load_texture, load_textures}

module _ (p : Platform) (make : Image → Result (List Pixel)) (self : ℕ) where
  open p use {efi, boot_services, pixel_pool}

  -- The picture with this name is read, and `make` gives this texture.
  pub record Gives (name : Option (List ℕ)) (texture : List Pixel) : Type 0 where
    pub bmp : Bmp
    pub image : Image
    pub read : read_bmp efi boot_services pixel_pool self name ≡ ok bmp
    pub stored : bmp.image ≡ some image
    pub made : make image ≡ ok texture
    pub succeeds : bmp.status ≡ efi.efi_success

  abbrev pub AllGive : List (Option (List ℕ)) → List (List Pixel) → Type 0
  AllGive [] [] = Unit
  AllGive [] (t ∷ ts) = ⊥
  AllGive (name ∷ names) [] = ⊥
  AllGive (name ∷ names) (t ∷ ts) = Gives name t × AllGive names ts

  -- The status that the loop ends with.
  abbrev pub end_status : ℕ → List (Option (List ℕ)) → ℕ
  end_status status [] = status
  end_status status (name ∷ names) = efi.efi_success

  success_lem :
      (status : ℕ) (names : List (Option (List ℕ)))
      → status ≡ efi.efi_success
      → end_status status names ≡ efi.efi_success
  success_lem status [] e = e
  success_lem status (name ∷ names) e = refl

  -- The loop has reached index `length done`.
  loop_lem :
      (all names : List (Option (List ℕ))) (done ts buffer : List (List Pixel)) (i status : ℕ)
      → efi.efi_error efi.efi_success ≡ false
      → drop i all ≡ names
      → AllGive names ts
      → i ≡ length done
      → buffer ≡ done ++ replicate (length names) []
      → Returns
          (λ (l : Loading).
            (l.textures ≡ done ++ ts) × (l.failed ≡ false) × (l.status ≡ end_status status names))
          (for_loop
            (length names)
            i
            (load_texture p make self all)
            (record { textures = buffer; status = status; failed = false }))
  unfolding for_loop load_texture
  loop_lem all [] done [] buffer i status fine e h g f = Returns-ok (f, refl, refl)
  loop_lem all [] done (t ∷ ts) buffer i status fine e h g f = absurd h
  loop_lem all (name ∷ names) done [] buffer i status fine e h g f = absurd h
  loop_lem all (name ∷ names) done (t ∷ ts) buffer i status fine e h g f =
      let r = drop-cons all i e in
      let given = h.0 in
      let next =
        loop_lem all names (done ++ t ∷ []) ts (done ++ t ∷ replicate (length names) []) (i + 1)
          given.bmp.status fine r.1 h.1 (omega (arith, g, length-append done (t ∷ [])))
          (append_step done t (replicate (length names) [])) in
      let good : efi.efi_error given.bmp.status ≡ false = rw given.succeeds fine in
      rw
        (
          r.0,
          given.read,
          good,
          given.stored,
          given.made,
          f,
          g,
          store_lem (done ++ [] ∷ replicate (length names) []) (length done) t
              (omega (arith, length-append done ([] ∷ replicate (length names) []))),
          set-append done (replicate (length names) []) [] t,
          ← g,
        )
        (Returns-map next (λ l k. (
          k.0 ∙ sym (append_step done t ts),
          k.1,
          k.2 ∙ success_lem given.bmp.status names given.succeeds,
        )))

  -- The pool has cleared room, and `EFI_SUCCESS` is no error. If the picture of every name is read
  -- with that status and gives a texture, for fewer than 2 ^ 60 names, the loop ends without a
  -- fault and without an early return, with these textures in the order of their names.
  pub load_textures_lem :
      (names : List (Option (List ℕ))) (textures : List (List Pixel)) (status : ℕ)
      → ((n : ℕ) → p.image_pool (n * 8) ≡ replicate n [])
      → efi.efi_error efi.efi_success ≡ false
      → length names < 2 ^ 60
      → AllGive names textures
      → Returns
          (λ (l : Loading).
            (l.textures ≡ textures) × (l.failed ≡ false) × (l.status ≡ end_status status names))
          (load_textures p make self status names (length names))
  unfolding load_textures
  load_textures_lem names textures status room fine small h =
      let narrow : wrap (length names * 8) ≡ length names * 8 = wrap_lem _ (omega arith) in
      loop_lem names names [] textures (p.image_pool (wrap (length names * 8))) 0 status fine refl h
        refl (ap p.image_pool narrow ∙ room (length names))
