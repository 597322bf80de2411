-- ===== src/Udp/Binding/Unbind.antt =====
-- Taking a binding away together with its peer's address.
use network_ultra_server.Prelude.{
  ◌≡◌, ap, true, false, none, some, ◌==◌, ==_iff, arith, if◌then◌else◌, bytes_eq, bytes_eqb_iff,
}
use text.Mathlib.TextEquality.{eq_iff}
use network_ultra_server.Prelude.Maps.{lookup, delete, has, lookup-delete}
use network_ultra_server.Room.State.{Uuid}
use network_ultra_server.Udp.State.{
  UdpAddr, addr_eq, addr_string, same_udp_addr, short_ip, Binding, Server,
}
use network_ultra_server.Udp.Binding.{IsBound}

pub same_of_string :
    (a b : UdpAddr) → addr_string a ≡ addr_string b → same_udp_addr (some a) b ≡ true
unfolding same_udp_addr addr_string
same_of_string a b e = ground (
  arith,
  bytes_eqb_iff (short_ip a.ip) (short_ip b.ip),
  eq_iff a.zone b.zone,
  ap (λ (x : UdpAddr). x.ip) e,
  ap (λ (x : UdpAddr). x.port) e,
  ap (λ (x : UdpAddr). x.zone) e,
)

-- A binding goes, its peer's address with it, and of the attached peers at most its own.
module _ (s t : Server) (key : UdpAddr) (b : Binding) (ok : IsBound s)
    (at_key : lookup key s.peer_by_addr ≡ some b)
    (gone : t.peer_by_addr ≡ delete key s.peer_by_addr)
    (cleared : t.udp_addr ≡ delete b.peer s.udp_addr)
    (attached : (pid : Uuid)
      → has pid s.peer_by_id ≡ true
      → (b.peer == pid) ≡ false
      → has pid t.peer_by_id ≡ true) where
  binding_at :
      (k : UdpAddr) → lookup k t.peer_by_addr ≡ (if key == k then none else lookup k s.peer_by_addr)
  binding_at k = rw gone (lookup-delete key k s.peer_by_addr)

  addr_at :
      (pid : Uuid) → lookup pid t.udp_addr ≡ (if b.peer == pid then none else lookup pid s.udp_addr)
  addr_at pid = rw cleared (lookup-delete b.peer pid s.udp_addr)

  -- Two bindings of one peer are one.
  one_key :
      (k : UdpAddr) (c : Binding) → lookup k s.peer_by_addr ≡ some c → b.peer ≡ c.peer → key ≡ k
  one_key k c at e =
      let (_, _, (a, held_a, named_a)) = ok.bound key b at_key in
      let (_, _, (a', held_a', named_a')) = ok.bound k c at in
      ground (arith, held_a, held_a', named_a, named_a', e)

  pub unbound-IsBound : IsBound t
  unbound-IsBound = record {
    bound = λ k c h.
        let here : lookup k s.peer_by_addr ≡ some c = ground (arith, binding_at k) in
        let (named, there, (a, at, named_a)) = ok.bound k c here in
        let other : (b.peer == c.peer) ≡ false =
          ground (arith, one_key k c here, ==_iff b.peer c.peer, binding_at k, ==_iff key k) in
        (named, attached c.peer there other, (a, ground (arith, addr_at c.peer), named_a));
    held = λ pid a h.
        let (c, at, mine) = ok.held pid a (ground (arith, addr_at pid)) in
        (
          c,
          ground (
            arith,
            binding_at (addr_string a),
            at,
            at_key,
            mine,
            ==_iff key (addr_string a),
            ==_iff b.peer pid,
            addr_at pid,
          ),
          mine,
        );
  }
