-- ===== src/Relay/Sound.antt =====
-- What holds of the whole server between two events.
use network_ultra_server.Room.Invariant.{Coherent}
use network_ultra_server.Udp.Binding.{IsBound}
use network_ultra_server.Ws.Session.{System}

-- The registry is coherent, and the data plane's bindings are in order.
pub record IsSound (s : System) : Type 0 where
  pub coherent : Coherent s.hub.world
  pub bound : IsBound s.udp
