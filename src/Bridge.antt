-- ===== src/Bridge.antt =====
-- cmd/bridge/main.go: the local relay between a plugin and the server.
pub mod Proxy
pub mod Sources
pub mod Handshake
pub mod Welcome
pub mod Rewriting
pub mod Relaying
pub mod Launch
mod Tests
