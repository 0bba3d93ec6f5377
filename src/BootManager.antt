-- ===== src/BootManager.antt =====
-- Application/BootManager2D (and the files that Application/BootManager3D shares with it).
pub mod Graphics
pub mod Partitions
pub mod Placement
pub mod Walk
pub mod Sprite
pub mod Entries
pub mod Files
pub mod Listing
pub mod Numbers
pub mod Bmp
pub mod Icons
pub mod Round
pub mod Boot
pub mod Main
