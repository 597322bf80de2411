-- ===== src/Relay.antt =====
-- The whole server: sessions, datagrams, timers and sweeps at one registry and one data plane.
pub mod Sound
pub mod Opening
pub mod Runs
pub mod Tests
use network_ultra_server.Prelude.{ℕ, String, List, none, some, bytes_eq}
use network_ultra_server.Prelude.Maps.{lookup}
use network_ultra_server.Room.State.{Uuid, Room, World, put_room}
use network_ultra_server.Room.Audio.{forward}
use network_ultra_server.Udp.State.{UdpAddr}
use network_ultra_server.Udp.Handlers.{Verdict, dispatch}
use network_ultra_server.Ws.State.{Hub}
use network_ultra_server.Ws.Session.{System}

abbrev pub with_world : System → World → System
with_world s w = record s { hub = record s.hub { world = w } }

-- `rm.Forward` at the end of internal/udp/server.go's handleAudio: a full queue drops the frame.
unfoldable pub deliver : System → Verdict → System
deliver s (Verdict.forwarded room f) = elim (lookup room s.hub.world.rooms) [
  | none ↦ s
  | some r ↦ with_world s (put_room s.hub.world (forward r f).0)
]
deliver s _ = s

-- A datagram, from the socket to the room's queue.
unfoldable pub receive : (Uuid → String) → System → List ℕ → UdpAddr → ℕ → System
receive uuid_string s pkt src now =
    let (udp, verdict) = dispatch uuid_string s.udp s.hub.world.peers pkt src now in
    deliver (record s { udp = udp }) verdict
