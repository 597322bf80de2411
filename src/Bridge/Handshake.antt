-- ===== src/Bridge/Handshake.antt =====
-- The handshake of a plugin with internal/udp through its proxy.
use network_ultra_server.Prelude.{ℕ, ◌≡◌, String, true, List, none, some, length, bytes_eq}
use network_ultra_server.Prelude.Maps.{Map, lookup, has}
use network_ultra_server.Proto.Audio
use network_ultra_server.Proto.Udp.{pack_udp_hello}
use network_ultra_server.RateLimit.Limiter.{allow}
use network_ultra_server.Room.State.{Uuid, Peer}
use network_ultra_server.Udp.State.{UdpAddr, addr_eq, addr_string, Server, minute}
use network_ultra_server.Udp.Binding.Hello.{bind, counted}
use network_ultra_server.Bridge.Proxy.{UdpProxy, new_udp_proxy}

abbrev pub hello_of : Uuid → List ℕ → List ℕ → List ℕ
hello_of id token dst = pack_udp_hello (record { peer_id = id; token = token }) dst

-- The proxy between the hello and the welcome, and after the welcome.
abbrev pub waiting_proxy : UdpAddr → UdpAddr → Uuid → List ℕ → UdpProxy
waiting_proxy upstream plugin id token = record (new_udp_proxy upstream id token) {
  pending_addr = some plugin;
}

abbrev pub joined_proxy : UdpAddr → UdpAddr → Uuid → List ℕ → UdpProxy
joined_proxy upstream plugin id token = record (new_udp_proxy upstream id token) {
  plugin_addr = some plugin;
}

-- The server behind the hello.
abbrev pub served_by : (Uuid → String) → Server → Uuid → List ℕ → UdpAddr → ℕ → Server
served_by uuid_string s id token outer now =
    bind (counted uuid_string s outer now id) id token outer now

module _ (upstream plugin : UdpAddr) (id token dst : List ℕ) (lid : length id ≡ 16)
    (ltok : length token ≡ 32) where
  abbrev hello : List ℕ
  hello = hello_of id token dst

  abbrev new_proxy : UdpProxy
  new_proxy = new_udp_proxy upstream id token

  abbrev waiting : UdpProxy
  waiting = waiting_proxy upstream plugin id token

  abbrev joined : UdpProxy
  joined = joined_proxy upstream plugin id token

  module _ (uuid_string : Uuid → String) (s : Server) (peers : Map Uuid Peer) (outer : UdpAddr)
      (now : ℕ) (attached : has id s.peer_by_id ≡ true)
      (minted : lookup id s.token_by_id ≡ some token) (unbound : lookup id s.udp_addr ≡ none)
      (unowned : lookup (addr_string outer) s.peer_by_addr ≡ none)
      (allowed : (allow s.hello_limiter now (uuid_string id) s.hello_limit minute).1 ≡ true) where
    abbrev served : Server
    served = served_by uuid_string s id token outer now
