-- ===== src/BootManager3D/Game/Frames.antt =====
-- A whole frame of the screen.
use uefi_game.Prelude.{
  ℕ, ◌+◌, ◌*◌, ◌≤◌, ◌<◌, ◌≡◌, ◌⊎◌, inl, inr, true, some, List, length, get_elem?, Returns,
  Returns-bind, Returns-map, for_loop, for_loop_from_zero,
}
use uefi_game.Doubles.{Doubles}
use uefi_game.Doubles.Laws.{IsRounded}
use uefi_game.Pixels.{Pixel}
use uefi_game.BootManager3D.View.{image_width, image_height, View, Level}
use uefi_game.BootManager3D.Floor.Halves.{IsShade, HasImages, screen_size, cast_floor_lem}
use uefi_game.BootManager3D.Rays.{is_positive}
use uefi_game.BootManager3D.Rays.Ends.{Holds, IsWalled, Inside, Inner}
use uefi_game.BootManager3D.Walls.{draw_column}
use uefi_game.BootManager3D.Walls.Columns.{
  IsWallPixel, IsTextured, AllEndOnMap, Column, draw_column_lem,
}
use uefi_game.BootManager3D.Game.{frame}

module _ (d : Doubles) (level : Level) (height : ℕ) (walled : IsWalled level height)
    (textures : List (List Pixel)) (textured : IsTextured level textures)
    (images : HasImages textures) where
  -- A pixel of the texture of a cell of the map that is not free.
  pub record OnWall (p : Pixel) : Type 0 where
    pub map_y : ℕ
    pub map_x : ℕ
    pub value : ℕ
    pub image : List Pixel
    pub inside : Inside level height walled map_y map_x
    pub holds : Holds level map_y map_x value
    pub positive : is_positive value ≡ true
    pub texture : get_elem? textures value ≡ some image
    pub pixel : IsWallPixel image p

  -- The floor below, the ceiling above, and walls.
  abbrev pub IsFrame : List Pixel → Type 0
  IsFrame s =
      (length s ≡ screen_size)
      × ((r c : ℕ) (p : Pixel)
          → r < image_height
          → c < image_width
          → get_elem? s (r * image_width + c) ≡ some p
          → OnWall p ⊎ ((320 ≤ r) × IsShade images.floor p ⊎ (r < 320) × IsShade images.ceiling p))

  column_lem :
      (v : View d) (x : ℕ) (s t : List Pixel)
      → IsFrame s
      → Column d level height walled textures textured v x s t
      → IsFrame t
  column_lem v x s t f c = (
    c.shows.0,
    λ r k p hr hk e. elim (c.shows.1 r k p hr hk e) [
      | inl same ↦ f.1 r k p hr hk same
      | inr (here, w) ↦ inl (record {
        map_y = c.map_y;
        map_x = c.map_x;
        value = c.value;
        image = c.image;
        inside = c.met;
        holds = c.holds;
        positive = c.positive;
        texture = c.texture;
        pixel = w;
      })
    ],
  )

  -- In a walled map, from a view inside of the walls, with a texture for every positive cell, full
  -- images for the floor and the ceiling, a whole buffer for the screen and enough fuel for the
  -- rays, a frame is drawn without an access out of bounds, if `double`s are rounded as IEEE 754
  -- has it and each ray ends at a coordinate along its wall that is finite and not negative. Every
  -- pixel of it is one of the floor's in the lower half, one of the ceiling's in the upper half,
  -- or one of the texture of a positive cell; each may be darkened.
  pub frame_lem :
      (v : View d) (fuel : ℕ) (screen : List Pixel)
      → Inner level height walled (d.to_int v.pos_y) (d.to_int v.pos_x)
      → level.map_width + height ≤ fuel
      → IsRounded d
      → AllEndOnMap d level fuel v
      → length screen ≡ screen_size
      → Returns IsFrame (frame d level textures fuel v screen)
  unfolding frame
  frame_lem v fuel screen inner enough rounded hits size =
      Returns-bind (λ s. for_loop image_width 0 (draw_column d textures level fuel v) s)
        (cast_floor_lem textures images d v screen size)
        (λ lower h.
          for_loop_from_zero (λ k s. IsFrame s) (draw_column d textures level fuel v) image_width
            (λ x s hx f.
              Returns-map
                (draw_column_lem d level height walled textures textured v x fuel s hx inner enough
                  rounded (λ r e. hits x r hx e) f.0)
                (λ t c. column_lem v x s t f c))
            lower (h.0, λ r c p hr hc e. inr (h.1 r c p hr hc e)))
