-- ===== src/Proto.antt =====
-- internal/proto: the wire formats of the audio and UDP control frames, and the protocol's limits.
pub mod Buffer
pub mod Audio
pub mod Udp
pub mod Tests
