-- ===== src/Lib.antt =====
-- UEFI-Game: UEFI applications that choose what to boot by a game. BootManager2D and BootManager3D let
-- the player walk through a maze to an escape that stands for a boot entry; Wordle boots when its word
-- is guessed; Maze is a picture of a maze to walk in; XV6 loads the xv6 kernel.
--
-- Each application reads its files from a volume (`ReadFile`), decodes them, and runs a loop on key
-- presses that draws and at last boots. The modules follow these parts; the theorems stand in the
-- children of the module that holds the definitions.
--
-- - Prelude: Boolean tests, lists, accesses to memory that can fault, loops, grids in rows.
-- - Pixels, Console, Efi, Lines, Int32, Doubles: pixels, scan codes and copies to the screen, the
--   constants of the UEFI headers, the search for the end of the first line of a file, numbers of 32
--   bits with a sign, and the numbers of type `double`, which are a parameter; Doubles/Laws is what
--   IEEE 754 promises of them.
-- - Disk: `ReadFile` of Application/Wordle/Wordle.c.
-- - Wordle: Application/Wordle/Wordle.c. Wordle/Score is the reply to a guess, Wordle/Play the typing
--   of a guess, the choice of the word, the six moves and the boot.
-- - Maze: Application/Maze/Maze.c. Maze/Level is `ParseMazeFile`, Maze/Actor is `ParseActor`, and of
--   `UefiMain` Maze/Picture is the place and the picture of the maze, Maze/Walk the loop on the keys,
--   Maze/Main the whole.
-- - BootManager: Application/BootManager2D/src.
--   - Graphics: Graphics.c, `CutInHalf` and `CombineWithTransparency`.
--   - Files, Partitions: FileSystems.c, `ReadFile`, `LocateCurFSHandle`, `LocateFSPartitions`.
--   - Entries, Listing, Numbers, Sprite: Config.c, `ParseConfigFile`, `ParseTexturesConfigFile`,
--     `ParseMazeConfigFile` and `ParseSprite`.
--   - Bmp: BMPReader.c, `ReadBMP`.
--   - Icons: Common.c, `AddElement`, and DemoGame.c, `MakeBootEntryTexture`.
--   - Placement, Walk, Round: DemoGame.c, `PlaceBootEntries`, the first picture and the loop of
--     `Game`, and `Game` as a whole.
--   - Boot, Main: Main.c, `BootEntry` and `UefiMain`. Main/Setup says what the disk has and what is
--     read from it, Main/Drive leads from there to the call of `Game`, Main/Finish is the end, and
--     Main/Whole puts them together; BootManager3D/Main/Whole does so with the other game.
-- - BootManager3D: Application/BootManager3D/src.
--   - View, Floor, Rays, Walls: DemoGame.c, of `Game` the floor and the ceiling, the ray of a column
--     and the part of a wall that the column shows.
--   - Icons, Game: DemoGame.c, `MakeBootEntryTexture`, what a key does, and the loop of `Game`.
--   - Main: Main.c, `UefiMain`. The other files are those of BootManager2D.
-- - Kernel: Application/XV6/xv6.c. Kernel/File is `LoadFile`; of `UefiMain` Kernel/Pages is the range of
--   pages, Kernel itself the copy of the segments, Kernel/Tables the structure of xv6.h with the
--   descriptor tables, as bytes of the memory, and Kernel/Start the exit from the boot services and
--   the whole up to the jump.
-- - Tests: runs of the definitions and instances of the theorems.
--
-- Conventions. A value of `Result` is `ok` or `fault`; a fault is an access outside a buffer, a use of
-- a pointer that nothing has set, or a division by zero. A buffer is a list; a null pointer is an empty
-- buffer. A machine integer is a natural number, and `wrap` is the remainder at 2 ^ 64. A loop
-- `for (i = 0; i < n; ++i)` is `for_loop n 0`, by recursion on the rounds left, so that no fuel is
-- needed; the loop of `Game` is recursion on the list of key presses. The loop along a ray takes fuel,
-- and `walk_ray` is `none` where it does not suffice: in a walled map as many steps as there are rows
-- and columns suffice. The firmware, the pool, the random numbers and the keyboard are parameters. An
-- uninitialised variable is an input of the pass that reads it.
--
-- Not modelled: freeing memory, messages on the console of the boot managers and of Maze.c, the filling
-- of the screen at the end of a game, the arithmetic of doubles beyond Doubles/Laws, the jump to the kernel, which is
-- machine code, the kernel under Application/XV6/data, which is a copy of MIT xv6, and the build files.
pub mod Prelude
pub mod Disk
pub mod Wordle
pub mod Pixels
pub mod Console
pub mod Lines
pub mod Int32
pub mod Doubles
pub mod Efi
pub mod BootManager
pub mod BootManager3D
pub mod Maze
pub mod Kernel
pub mod Tests
