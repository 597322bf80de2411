-- ===== src/Ws.antt =====
-- internal/ws: sessions over WebSocket, their control messages and their audio.
pub mod Labels
pub mod State
pub mod Rooms
pub mod Control
pub mod Steps
pub mod Refinement
pub mod Messages
pub mod Disconnect
pub mod Access
pub mod Sources
pub mod Conn
pub mod Session
pub mod Admission
pub mod Audio
pub mod Closing
pub mod Tests
pub mod ClientIp
pub mod Http
pub mod Delta
