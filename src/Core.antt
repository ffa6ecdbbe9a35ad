-- ===== src/Core.antt =====
-- The core of the client, fury-clash-client/src/core.
pub mod StateMachine
pub mod GameLoop
pub mod Arena
