-- ===== src/Maze.antt =====
-- Application/Maze/Maze.c: a maze on the whole screen; whoever reaches its end boots.
pub mod Level
pub mod Actor
pub mod Picture
pub mod Walk
pub mod Main
