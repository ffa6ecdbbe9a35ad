-- ===== src/Network.antt =====
-- The networking of fury-clash-client/src/network: a module for each source file.
pub mod Rollback
pub mod Frame
pub mod Json
pub mod Os
pub mod Url
pub mod Client
pub mod Serializer
pub mod InputBuffer
pub mod Http
pub mod NetStats
