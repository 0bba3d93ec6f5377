-- ===== src/Tests/Tours.antt =====
-- Application/BootManager3D in the corridor of Views: a ray, a frame and a game.
use uefi_game.Prelude.{arith, replicate, Returns}
use uefi_game.Pixels.{zero_pixel}
use uefi_game.BootManager3D.Floor.Halves.{screen_size}
use uefi_game.BootManager3D.Rays.{start_ray, walk_ray}
use uefi_game.BootManager3D.Rays.Ends.{Meets, walk_ray_lem}
use uefi_game.BootManager3D.Game.{first_view, frame}
use uefi_game.BootManager3D.Game.Frames.{IsFrame, frame_lem}
use uefi_game.Tests.Views.{
  hundredths, corridor, corridor-IsWalled, images, corridor-IsTextured, images-HasImages,
  hundredths-IsRounded, every-EndsOnMap, screen_there,
}

walk_ray_lem_example :
    Returns
      (Meets corridor 19 corridor-IsWalled hundredths)
      (walk_ray hundredths corridor 23 (start_ray hundredths (first_view hundredths) 480))
unfolding first_view
walk_ray_lem_example =
    walk_ray_lem corridor 19 corridor-IsWalled hundredths (first_view hundredths) 480 23
      (omega arith) (omega arith)

frame_lem_example :
    Returns
      (IsFrame hundredths corridor 19 corridor-IsWalled images corridor-IsTextured images-HasImages)
      (frame hundredths corridor images 23
        (first_view hundredths)
        (replicate screen_size zero_pixel))
unfolding first_view
frame_lem_example =
    frame_lem hundredths corridor 19 corridor-IsWalled images corridor-IsTextured images-HasImages
      (first_view hundredths) 23 (replicate screen_size zero_pixel) (omega arith) (omega arith)
      hundredths-IsRounded (λ x r hx e. every-EndsOnMap (first_view hundredths) r) screen_there
