-- ===== src/Udp.antt =====
-- internal/udp: the UDP data plane, which binds authenticated peers to source addresses.
pub mod State
pub mod Handlers
pub mod Sweep
pub mod Binding
pub mod Security
pub mod Expiry
pub mod Tests
