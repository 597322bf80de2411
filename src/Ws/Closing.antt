-- ===== src/Ws/Closing.antt =====
-- The end of a session in the data plane.
use network_ultra_server.Prelude.{◌≡◌, ◌≢◌, some, arith, ==_iff, bytes_eq, Option-cases, inl, inr}
use network_ultra_server.Prelude.Maps.{lookup, delete, has-delete}
use network_ultra_server.Room.State.{Peer}
use network_ultra_server.Udp.State.{UdpAddr, addr_eq, Binding}
use network_ultra_server.Udp.Handlers.{detach_peer}
use network_ultra_server.Udp.Binding.{IsBound}
use network_ultra_server.Udp.Binding.Ops.{detach_peer-IsBound}
use network_ultra_server.Ws.Session.{System, close_session}

module _ (s : System) (p : Peer) where
  detached : (close_session s p).udp.peer_by_id ≡ delete p.id s.udp.peer_by_id
  unfolding close_session detach_peer
  detached = elim (Option-cases (lookup p.id s.udp.udp_addr)) [
    | inl nowhere ↦ ground arith
    | inr (a, at) ↦ ground arith
  ]

  -- When a session ends, the bindings of the data plane, in order before, stay in order, and none
  -- of them is its peer's.
  pub close_session_silent :
      IsBound s.udp
      → IsBound (close_session s p).udp
        × ((key : UdpAddr) (b : Binding)
            → lookup key (close_session s p).udp.peer_by_addr ≡ some b
            → b.peer ≢ p.id)
  unfolding close_session
  close_session_silent ok = (after, silent)
    where
      after : IsBound (close_session s p).udp
      after = detach_peer-IsBound s.udp ok p.id

      silent :
          (key : UdpAddr) (b : Binding)
          → lookup key (close_session s p).udp.peer_by_addr ≡ some b
          → b.peer ≢ p.id
      silent key b bound mine =
          let (named, attached, rest) = after.bound key b bound in
          absurd
            (ground (arith, detached, has-delete p.id b.peer s.udp.peer_by_id, ==_iff p.id b.peer))
