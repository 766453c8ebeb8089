-- ===== src/Character.antt =====
-- The character of a player: its state, its combat statistics and the item templates they read.
pub mod State
pub mod Combat
