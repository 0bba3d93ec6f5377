-- ===== src/BootManager3D.antt =====
-- Application/BootManager3D: the maze seen from inside. The files that it shares with
-- Application/BootManager2D are modelled there.
pub mod View
pub mod Floor
pub mod Rays
pub mod Walls
pub mod Icons
pub mod Game
pub mod Main
