-- ===== src/Udp/Expiry.antt =====
-- What the sweep and the fan-out's route forget: bindings that have been silent for the timeout.
use network_ultra_server.Prelude.{
  leb, ◌-◌, ℕ, ◌≡◌, sym, ap, ◌∙◌, ◌⊎◌, inl, inr, true, false, [], ◌∷◌, none, some, ◌==◌, ==_iff,
  ==_refl, arith, if◌then◌else◌, bytes_eq, Bool-cases, Option-cases, subst,
}
use network_ultra_server.Prelude.Maps.{Map, lookup, keep_unless, lookup-delete}
use network_ultra_server.Room.State.{Uuid}
use network_ultra_server.Udp.State.{UdpAddr, addr_eq, addr_string, Binding, Server}
use network_ultra_server.Udp.Sweep.{
  expire_one, expire_candidate, expire_over, expire_idle, is_idle, udp_route, is_gone,
}
use network_ultra_server.Udp.Binding.Runs.{candidate_cases}

module _ (now : ℕ) where
  expire_one-lookup :
      (s : Server) (key k : UdpAddr) (b : Binding)
      → lookup k (expire_one s key b).peer_by_addr
        ≡ (if key == k then none else lookup k s.peer_by_addr)
  unfolding expire_one
  expire_one-lookup s key k b = ground (arith, lookup-delete key k s.peer_by_addr)

  candidate_lookup :
      (key k : UdpAddr) (c : Binding) (s : Server)
      → (lookup k (expire_candidate now key c s).peer_by_addr ≡ lookup k s.peer_by_addr)
        ⊎ ((lookup k (expire_candidate now key c s).peer_by_addr ≡ none)
            × (k ≡ key)
            × (lookup k s.peer_by_addr ≡ some c)
            × (is_idle now c ≡ true))
  candidate_lookup key k c s = elim (candidate_cases now key c s) [
    | inl (same, _) ↦ inl (ap (λ (t : Server). lookup k t.peer_by_addr) same)
    | inr (at, idle, e) ↦ rw e (elim (Bool-cases (key == k)) [
      | inl y ↦ inr (
        ground (arith, expire_one-lookup s key k c),
        ground (arith, ==_iff key k),
        ground (arith, ==_iff key k),
        idle,
      )
      | inr n ↦ inl (ground (arith, expire_one-lookup s key k c))
    ])
  ]

  candidate_expires :
      (k : UdpAddr) (b : Binding) (s : Server)
      → is_idle now b ≡ true
      → lookup k s.peer_by_addr ≡ some b
      → lookup k (expire_candidate now k b s).peer_by_addr ≡ none
  candidate_expires k b s idle at = elim (candidate_cases now k b s) [
    | inl (_, inl unbound) ↦ absurd (unbound at)
    | inl (_, inr fresh) ↦ absurd (ground arith)
    | inr (_, _, e) ↦ rw e (ground (arith, expire_one-lookup s k k b, ==_refl k))
  ]

  expire_over_gone :
      (m : Map UdpAddr Binding) (s : Server) (k : UdpAddr)
      → lookup k s.peer_by_addr ≡ none
      → lookup k (expire_over now m s).peer_by_addr ≡ none
  unfolding expire_over
  expire_over_gone [] s k h = h
  expire_over_gone ((key, c) ∷ rest) s k h =
      expire_over_gone rest _ k (ground (arith, candidate_lookup key k c s))

  expire_over_fresh :
      (m : Map UdpAddr Binding) (s : Server) (k : UdpAddr) (b : Binding)
      → is_idle now b ≡ false
      → lookup k s.peer_by_addr ≡ some b
      → lookup k (expire_over now m s).peer_by_addr ≡ some b
  unfolding expire_over
  expire_over_fresh [] s k b fresh at = at
  expire_over_fresh ((key, c) ∷ rest) s k b fresh at =
      expire_over_fresh rest _ k b fresh (elim (candidate_lookup key k c s) [
        | inl same ↦ same ∙ at
        | inr (_, _, at', idle) ↦ absurd (ground arith)
      ])

  expire_over_idle :
      (m : Map UdpAddr Binding) (s : Server) (k : UdpAddr) (b : Binding)
      → is_idle now b ≡ true
      → lookup k m ≡ some b
      → lookup k s.peer_by_addr ≡ some b
      → lookup k (expire_over now m s).peer_by_addr ≡ none
  unfolding expire_over lookup
  expire_over_idle [] s k b idle listed at = absurd (ground arith)
  expire_over_idle ((key, c) ∷ rest) s k b idle listed at = elim (Bool-cases (key == k)) [
    | inl y ↦ expire_over_gone rest _ k (
        subst
          (λ (x : UdpAddr × Binding). lookup k (expire_candidate now x.0 x.1 s).peer_by_addr ≡ none)
          (ground (arith, ==_iff key k)) (candidate_expires k b s idle at))
    | inr n ↦ elim (candidate_lookup key k c s) [
      | inl same ↦ expire_over_idle rest _ k b idle (ground arith) (same ∙ at)
      | inr (_, e, _, _) ↦ absurd (ground (arith, ==_iff key k))
    ]
  ]

  -- A sweep forgets exactly the bindings that have been silent for 15 seconds or more, and leaves
  -- every other as it is.
  pub expire_idle_exact :
      (s : Server) (k : UdpAddr)
      → lookup k (expire_idle s now).peer_by_addr
        ≡ keep_unless (λ b. leb 15_000_000_000 (now - b.last_seen)) (lookup k s.peer_by_addr)
  unfolding expire_idle
  expire_idle_exact s k = elim (Option-cases (lookup k s.peer_by_addr)) [
    | inl h ↦ rw h (expire_over_gone s.peer_by_addr s k h)
    | inr (b, at) ↦ elim (Bool-cases (is_idle now b)) [
      | inl y ↦ expire_over_idle s.peer_by_addr s k b y at at ∙ sym (ground arith)
      | inr n ↦ expire_over_fresh s.peer_by_addr s k b n at ∙ sym (ground arith)
    ]
  ]

-- A peer's route is its address, changing nothing, if that is bound to the peer and was heard from
-- within the timeout; otherwise there is no route, and the peer has no address afterwards.
pub udp_route_exact :
    (s : Server) (id : Uuid) (now : ℕ)
    → ((a : UdpAddr) × (b : Binding) × ((udp_route s id now).1 ≡ some a)
        × ((udp_route s id now).0 ≡ s)
        × (lookup id s.udp_addr ≡ some a)
        × (lookup (addr_string a) s.peer_by_addr ≡ some b)
        × (b.peer ≡ id)
        × (is_idle now b ≡ false))
      ⊎ (((udp_route s id now).1 ≡ none) × (lookup id (udp_route s id now).0.udp_addr ≡ none))
unfolding udp_route is_gone
udp_route_exact s id now = elim (Option-cases (lookup id s.udp_addr)) [
  | inl nowhere ↦ inr (ground arith)
  | inr (a, at) ↦ elim (Option-cases (lookup (addr_string a) s.peer_by_addr)) [
    | inl gone ↦ inr (ground (arith, lookup-delete id id s.udp_addr, ==_refl id))
    | inr (b, bound) ↦ elim (Bool-cases (b.peer == id)) [
      | inr n ↦ inr (ground (arith, lookup-delete id id s.udp_addr, ==_refl id))
      | inl y ↦ elim (Bool-cases (is_idle now b)) [
        | inl old ↦ inr (ground (arith, lookup-delete id id s.udp_addr, ==_refl id))
        | inr fresh ↦
            inl
              (a, b, ground arith, ground arith, at, bound, ground (arith, ==_iff b.peer id), fresh)
      ]
    ]
  ]
]
