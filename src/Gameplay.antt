-- ===== src/Gameplay.antt =====
-- The game logic of fury-clash-client/src/gameplay: a module for each source file.
pub mod Types
pub mod Data
pub mod Physics
pub mod Fighter
pub mod Hitbox
pub mod Round
pub mod Simulation
pub mod Combo
pub mod Motion
pub mod Super
pub mod Camera
