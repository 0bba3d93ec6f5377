-- ===== src/Tests.antt =====
-- Runs of the definitions, and the theorems at inputs that meet their hypotheses.
mod Views
mod Tours
mod Adventures
mod Shelf
mod Startups
mod Departures
mod Escapes
mod Loadings
mod Words
mod Pictures
mod Volumes
mod Mazes
mod Configs
mod Icons
mod Rounds
mod Labyrinths
mod Applications
mod Kernels
