-- ===== src/Bridge/Proxy.antt =====
-- The UDP proxy of one bridge connection: a loopback socket for the plugin and another for the
-- server. Each loop holds the proxy's lock while it decides about a datagram; what is returned
-- next to the proxy is the datagram that the loop then writes.
use network_ultra_server.Prelude.{
  ℕ, Bool, ◌&&◌, not, List, Option, none, some, ◌==◌, nat_eqb, if◌then◌else◌, length, slice, get_or,
  bytes_eq,
}
use network_ultra_server.Proto.Udp
use network_ultra_server.Proto.Udp.{
  UdpHelloFrame, unpack_udp_hello, udp_welcome_size, udp_frame_type_welcome,
}
use network_ultra_server.Room.State.{Uuid}
use network_ultra_server.Udp.State.{UdpAddr, same_udp_addr}

pub record UdpProxy : Type 0 where
  pub upstream : UdpAddr
  pub expected_peer : Uuid
  pub expected_token : List ℕ
  pub pending_addr : Option UdpAddr
  pub plugin_addr : Option UdpAddr

-- newUDPProxy, once its two sockets are open.
abbrev pub new_udp_proxy : UdpAddr → Uuid → List ℕ → UdpProxy
new_udp_proxy upstream peer token = record {
  upstream = upstream;
  expected_peer = peer;
  expected_token = token;
  pending_addr = none;
  plugin_addr = none;
}

-- Both comparisons are sameFixedBytes.
unfoldable pub is_expected : UdpProxy → UdpHelloFrame → Bool
is_expected p hello = hello.peer_id == p.expected_peer && hello.token == p.expected_token

unfoldable pub accept_hello : UdpProxy → List ℕ → UdpAddr → UdpProxy × Option (List ℕ)
accept_hello p pkt src = elim p.pending_addr [
  | none ↦ (record p { pending_addr = some src }, some pkt)
  | some pending ↦ if not (same_udp_addr (some src) pending) then (p, none) else (p, some pkt)
]

-- One turn of loopFromPlugin: what goes to the server.
unfoldable pub loop_from_plugin : UdpProxy → List ℕ → UdpAddr → UdpProxy × Option (List ℕ)
loop_from_plugin p pkt src = elim p.plugin_addr [
  | some bound ↦ if not (same_udp_addr (some src) bound) then (p, none) else (p, some pkt)
  | none ↦ elim (unpack_udp_hello pkt) [
    | Udp.err _ ↦ (p, none)
    | Udp.ok hello ↦ if not (is_expected p hello) then (p, none) else accept_hello p pkt src
  ]
]

-- `n != UdpWelcomeSize || buf[0] != UdpFrameTypeWelcome || !sameFixedBytes(buf[4:20], ...)`, the
-- other way round.
unfoldable pub is_welcome : UdpProxy → List ℕ → Bool
is_welcome p pkt =
    nat_eqb (length pkt) udp_welcome_size
    && (nat_eqb (get_or pkt 0 0) udp_frame_type_welcome && slice 4 20 pkt == p.expected_peer)

unfoldable pub complete_binding : UdpProxy → List ℕ → UdpProxy × Option (UdpAddr × List ℕ)
complete_binding p pkt = elim p.pending_addr [
  | none ↦ (p, none)
  | some a ↦
      if not (is_welcome p pkt)
      then (p, none)
      else (record p { plugin_addr = some a; pending_addr = none }, some (a, pkt))
]

-- One turn of loopFromUpstream: what goes to the plugin, and to which address.
unfoldable pub loop_from_upstream :
    UdpProxy → List ℕ → UdpAddr → UdpProxy × Option (UdpAddr × List ℕ)
loop_from_upstream p pkt src =
    if not (same_udp_addr (some src) p.upstream)
    then (p, none)
    else (elim p.plugin_addr [ some dst ↦ (p, some (dst, pkt)) | none ↦ complete_binding p pkt ])
