-- ===== src/Wordle.antt =====
-- Application/Wordle/Wordle.c: the reply to a guess is in Score, the game in Play, the whole in
-- Main.
pub mod Score
pub mod Play
pub mod Main
