-- ===== src/Tests.antt =====
-- Concrete values of the parameters, and the properties applied to them.
pub mod Machines
pub mod Rollback
pub mod Gameplay
pub mod Network
pub mod Game
pub mod Program
pub mod Dodge
pub mod Render
pub mod Pieces
