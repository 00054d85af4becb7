-- ===== src/Forwarder.antt =====
-- rdp_forwarder.c: the pairs of connections that the forwarder serves, and the data that it passes on.
pub mod Types
pub mod State
pub mod Pool
pub mod Data
pub mod Wiring
pub mod Hybrid
pub mod Server
pub mod Lines
pub mod Config
pub mod Reconnect
mod Tests
