-- ===== src/Transport.antt =====
-- hybrid_transport.h and hybrid_transport.c, component by component.
mod Tests
pub mod Types
pub mod Wire
pub mod Clock
pub mod Statistics
pub mod Send
pub mod Recv
pub mod Events
pub mod Timeout
pub mod Socket
pub mod Exchange
pub mod Invariant
