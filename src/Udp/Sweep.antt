-- ===== src/Udp/Sweep.antt =====
-- What takes bindings away in internal/udp/server.go: the periodic sweep, and the sender that
-- finds its route expired.
use network_ultra_server.Prelude.{
  ℕ, ◌-◌, Bool, true, ◌||◌, not, List, [], ◌∷◌, Option, none, some, ◌==◌, leb, if◌then◌else◌,
  bytes_eq,
}
use network_ultra_server.Prelude.Maps.{Map, lookup, delete}
use network_ultra_server.Room.State.{Uuid}
use network_ultra_server.Udp.State.{
  UdpAddr, addr_eq, addr_string, same_udp_addr, same_binding, Binding, Server, peer_idle_timeout,
}
use network_ultra_server.Udp.Handlers.{unbind}

-- `token, ok := m[id]; ok && token == wanted`, then the delete.
unfoldable pub burn_token : Map Uuid (List ℕ) → Uuid → List ℕ → Map Uuid (List ℕ)
burn_token m id wanted = elim (lookup id m) [
  | none ↦ m
  | some token ↦ if token == wanted then delete id m else m
]

-- The body of expireIdle's loop behind its two guards.
unfoldable pub expire_one : Server → UdpAddr → Binding → Server
expire_one s key b =
    let s' = record s { peer_by_addr = delete key s.peer_by_addr } in
    if same_udp_addr (lookup b.peer s.udp_addr) b.addr
    then record s' {
      udp_addr = delete b.peer s.udp_addr;
      token_by_id = burn_token s.token_by_id b.peer b.token;
    }
    else s'

abbrev pub is_idle : ℕ → Binding → Bool
is_idle now b = leb peer_idle_timeout (now - b.last_seen)

-- `s.now().Sub(candidate.lastSeen) < peerIdleTimeout` when the sweep collects its candidates, and
-- `current := s.peerByAddr[key]; current != candidate` under the second lock.
unfoldable pub expire_candidate : ℕ → UdpAddr → Binding → Server → Server
expire_candidate now key b s =
    if not (is_idle now b) then s else (elim (lookup key s.peer_by_addr) [
      | none ↦ s
      | some current ↦ if same_binding current b then expire_one s key b else s
    ])

unfoldable pub expire_over : ℕ → Map UdpAddr Binding → Server → Server
expire_over now [] s = s
expire_over now ((key, b) ∷ rest) s = expire_over now rest (expire_candidate now key b s)

unfoldable pub expire_idle : Server → ℕ → Server
expire_idle s now = expire_over now s.peer_by_addr s

-- `candidate == nil || candidate.peer != p || s.now().Sub(candidate.lastSeen) >= peerIdleTimeout`
unfoldable pub is_gone : Option Binding → Uuid → ℕ → Bool
is_gone none id now = true
is_gone (some b) id now = not (b.peer == id) || is_idle now b

burn_candidate : Map Uuid (List ℕ) → Uuid → Option Binding → Map Uuid (List ℕ)
unfolding burn_token
burn_candidate m id none = m
burn_candidate m id (some b) = burn_token m id b.token

-- The sender of makeUdpSender up to its write: the address to write to, if any.
unfoldable pub udp_route : Server → Uuid → ℕ → Server × Option UdpAddr
unfolding burn_candidate
udp_route s id now = elim (lookup id s.udp_addr) [
  | none ↦ (s, none)
  | some addr ↦
      if is_gone (lookup (addr_string addr) s.peer_by_addr) id now
      then (
        record s {
          peer_by_addr = unbind s.peer_by_addr (addr_string addr) id;
          udp_addr = delete id s.udp_addr;
          token_by_id = burn_candidate s.token_by_id id (lookup (addr_string addr) s.peer_by_addr);
        },
        none,
      )
      else (s, some addr)
]
