-- ===== src/Udp/Binding/Ops.antt =====
-- The sessions' operations and a sign of life, under the invariant of the bindings.
use network_ultra_server.Prelude.{
  ℕ, ◌≡◌, refl, sym, ap, ◌∙◌, inl, inr, true, List, Option, none, some, ◌==◌, ==_iff, arith,
  if◌then◌else◌, bytes_eq, Bool-cases, Option-cases, subst,
}
use network_ultra_server.Prelude.Maps.{lookup, delete, has, lookup-insert, has-insert, has-delete}
use network_ultra_server.Room.State.{Uuid}
use network_ultra_server.Udp.State.{UdpAddr, addr_eq, addr_string, Binding, Server}
use network_ultra_server.Udp.Handlers.{attach_peer, mint_token, detach_peer, unbind, seen}
use network_ultra_server.Udp.Binding.{IsBound}
use network_ultra_server.Udp.Binding.Unbind.{same_of_string, unbound-IsBound}

module _ (s : Server) (ok : IsBound s) where
  pub attach_peer-IsBound : (id : Uuid) → IsBound (attach_peer s id)
  unfolding attach_peer
  attach_peer-IsBound id = record {
    bound = λ key b h.
        let (named, there, held) = ok.bound key b h in
        (named, ground (arith, there, has-insert id b.peer tt s.peer_by_id), held);
    held = ok.held;
  }

  pub mint_token-IsBound : (id : Uuid) (token : Option (List ℕ)) → IsBound (mint_token s id token).0
  unfolding mint_token
  mint_token-IsBound id none = ok
  mint_token-IsBound id (some token) = record { bound = ok.bound; held = ok.held }

  detach_tables :
      (id : Uuid) (a : UdpAddr) (b : Binding)
      → lookup id s.udp_addr ≡ some a
      → lookup (addr_string a) s.peer_by_addr ≡ some b
      → b.peer ≡ id
      → ((detach_peer s id).peer_by_addr ≡ delete (addr_string a) s.peer_by_addr)
        × ((detach_peer s id).udp_addr ≡ delete id s.udp_addr)
  unfolding detach_peer unbind
  detach_tables id a b at bound mine = ground (arith, same_of_string a a refl, ==_iff b.peer id)

  peer_by_id-detach : (id : Uuid) → (detach_peer s id).peer_by_id ≡ delete id s.peer_by_id
  unfolding detach_peer
  peer_by_id-detach id = ground arith

  -- A peer that leaves takes its binding with it.
  pub detach_peer-IsBound : (id : Uuid) → IsBound (detach_peer s id)
  unfolding detach_peer
  detach_peer-IsBound id = elim (Option-cases (lookup id s.udp_addr)) [
    | inl nowhere ↦
        rw (nowhere, detach_peer)
          (record {
            bound = λ key b h.
                let (named, there, (a, at, named_a)) = ok.bound key b h in
                (
                  named,
                  ground (arith, there, has-delete id b.peer s.peer_by_id, ==_iff id b.peer),
                  (a, at, named_a),
                );
            held = ok.held;
          })
    | inr (a, at) ↦
        let (b, bound, mine) = ok.held id a at in
        let (gone, cleared) = detach_tables id a b at bound mine in
        unbound-IsBound s (detach_peer s id) (addr_string a) b ok bound gone
          (cleared ∙ ap (λ (pid : Uuid). delete pid s.udp_addr) (sym mine))
          (λ pid there other.
            ground (arith, peer_by_id-detach id, there, has-delete id pid s.peer_by_id, mine))
  ]

  pub seen-IsBound :
      (src : UdpAddr) (b : Binding) (now : ℕ)
      → lookup (addr_string src) s.peer_by_addr ≡ some b
      → IsBound (seen s src b now)
  seen-IsBound src b now at = record {
    bound = λ key c h. elim (Bool-cases (addr_string src == key)) [
      | inl y ↦
          let e : record b { last_seen = now } ≡ c = ground (arith, binding_at key) in
          let (named, there, held) = ok.bound (addr_string src) b at in
          let k = (==_iff (addr_string src) key).0 y in
          subst
            (λ (d : Binding).
              (addr_string d.addr ≡ key)
              × (has d.peer s.peer_by_id ≡ true)
              × ((a : UdpAddr) × (lookup d.peer s.udp_addr ≡ some a) × (addr_string a ≡ key)))
            e (named ∙ k, there, (held.0, held.1, held.2 ∙ k))
      | inr n ↦ ok.bound key c (ground (arith, binding_at key))
    ];
    held = λ id a h.
        let (c, here, mine) = ok.held id a h in
        elim (Bool-cases (addr_string src == addr_string a)) [
          | inl y ↦ (
            record b { last_seen = now },
            ground (arith, binding_at (addr_string a)),
            ground (arith, at, here, ==_iff (addr_string src) (addr_string a)),
          )
          | inr n ↦ (c, ground (arith, binding_at (addr_string a)), mine)
        ];
  }
    where
      binding_at :
          (key : UdpAddr)
          → lookup key (seen s src b now).peer_by_addr ≡ (
              if addr_string src == key
              then some (record b { last_seen = now })
              else lookup key s.peer_by_addr)
      binding_at key =
          lookup-insert (addr_string src) key (record b { last_seen = now }) s.peer_by_addr
