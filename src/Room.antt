-- ===== src/Room.antt =====
-- internal/room: rooms, the registry that publishes them, peers, and the audio fan-out.
pub mod State
pub mod Ops
pub mod Registry
pub mod Audio
pub mod Invariant
pub mod Lifetime
pub mod Tests
