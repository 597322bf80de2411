-- ===== src/Udp/Binding.antt =====
-- The invariant of the data plane: an address speaks for one attached peer, and a peer has at most
-- one address.
pub mod Hello
pub mod Unbind
pub mod Ops
pub mod Runs
use network_ultra_server.Prelude.{◌≡◌, true, some}
use network_ultra_server.Prelude.Maps.{lookup, has}
use network_ultra_server.Prelude.{bytes_eq}
use network_ultra_server.Room.State.{Uuid}
use network_ultra_server.Udp.State.{UdpAddr, addr_eq, addr_string, Binding, Server}

-- A binding's key is its address, and its peer is attached and holds that address; a peer that
-- holds an address is the one that the address is bound to.
pub record IsBound (s : Server) : Type 0 where
  pub bound :
      (key : UdpAddr) (b : Binding)
      → lookup key s.peer_by_addr ≡ some b
      → (addr_string b.addr ≡ key)
        × (has b.peer s.peer_by_id ≡ true)
        × ((a : UdpAddr) × (lookup b.peer s.udp_addr ≡ some a) × (addr_string a ≡ key))
  pub held :
      (id : Uuid) (a : UdpAddr)
      → lookup id s.udp_addr ≡ some a
      → (b : Binding) × (lookup (addr_string a) s.peer_by_addr ≡ some b) × (b.peer ≡ id)
