-- ===== src/Udp/Binding/Runs.antt =====
-- The data plane's steps, and their runs.
use network_ultra_server.Prelude.{
  ℕ, ◌≡◌, ◌≢◌, sym, ap, ◌∙◌, ◌⊎◌, inl, inr, String, true, false, List, [], ◌∷◌, Option, none, some,
  ◌==◌, ==_iff, arith, bytes_eq, bytes_eqb_iff, Bool-cases, Option-cases, subst,
}
use network_ultra_server.Prelude.Maps.{Map, lookup, delete}
use network_ultra_server.RateLimit.Limiter.{allow}
use network_ultra_server.Proto.Udp.{
  unpack_udp_ping, pack_udp_pong, udp_frame_type_hello, udp_frame_type_ping,
}
use network_ultra_server.Proto.Udp
use network_ultra_server.Proto.Audio.{unpack, audio_frame_type}
use network_ultra_server.Proto.Audio
use network_ultra_server.Room.State.{Uuid, Peer}
use network_ultra_server.Udp.State.{
  UdpAddr, addr_eq, addr_eqb_iff, addr_string, same_binding, Binding, Server, second, new_server,
}
use network_ultra_server.Udp.Handlers.{
  attach_peer, mint_token, detach_peer, unbind, seen, handle_ping, handle_audio, dispatch,
  handle_hello,
}
use network_ultra_server.Udp.Sweep.{
  expire_one, expire_candidate, expire_over, expire_idle, is_idle, udp_route,
}
use network_ultra_server.Udp.Binding.{IsBound}
use network_ultra_server.Udp.Binding.Hello.{handle_hello-IsBound}
use network_ultra_server.Udp.Binding.Unbind.{same_of_string, unbound-IsBound}
use network_ultra_server.Udp.Binding.Ops.{
  attach_peer-IsBound, mint_token-IsBound, detach_peer-IsBound, seen-IsBound,
}

pub same_binding-eq : (a b : Binding) → same_binding a b ≡ true → a ≡ b
unfolding same_binding
same_binding-eq a b h =
    ground (
      arith,
      bytes_eqb_iff a.peer b.peer,
      addr_eqb_iff a.addr b.addr,
      bytes_eqb_iff a.token b.token,
    )

pub same_binding_refl : (b : Binding) → same_binding b b ≡ true
unfolding same_binding
same_binding_refl b =
    ground (
      arith,
      bytes_eqb_iff b.peer b.peer,
      addr_eqb_iff b.addr b.addr,
      bytes_eqb_iff b.token b.token,
    )

-- The sweep passes over a candidate that is not idle, and one that is not bound any more.
pub candidate_cases :
    (now : ℕ) (key : UdpAddr) (b : Binding) (s : Server)
    → ((expire_candidate now key b s ≡ s)
        × ((lookup key s.peer_by_addr ≢ some b) ⊎ (is_idle now b ≡ false)))
      ⊎ ((lookup key s.peer_by_addr ≡ some b)
          × (is_idle now b ≡ true)
          × (expire_candidate now key b s ≡ expire_one s key b))
unfolding expire_candidate
candidate_cases now key b s = elim (Bool-cases (is_idle now b)) [
  | inr n ↦ inl (ground arith, inr n)
  | inl y ↦ elim (Option-cases (lookup key s.peer_by_addr)) [
    | inl gone ↦ inl (ground arith, inl (λ at. absurd (ground arith)))
    | inr (current, at) ↦ elim (Bool-cases (same_binding current b)) [
      | inl same ↦ inr (at ∙ ap some (same_binding-eq current b same), y, ground arith)
      | inr other ↦ inl (ground arith, inl (λ at'. absurd (ground (arith, same_binding_refl b))))
    ]
  ]
]

module _ (s : Server) (ok : IsBound s) where
  expire_tables :
      (key : UdpAddr) (b : Binding) (a : UdpAddr)
      → lookup b.peer s.udp_addr ≡ some a
      → addr_string a ≡ addr_string b.addr
      → ((expire_one s key b).peer_by_addr ≡ delete key s.peer_by_addr)
        × ((expire_one s key b).udp_addr ≡ delete b.peer s.udp_addr)
        × ((expire_one s key b).peer_by_id ≡ s.peer_by_id)
  unfolding expire_one
  expire_tables key b a at e = ground (arith, same_of_string a b.addr e)

  pub expire_one-IsBound :
      (key : UdpAddr) (b : Binding)
      → lookup key s.peer_by_addr ≡ some b
      → IsBound (expire_one s key b)
  expire_one-IsBound key b at =
      let (named, _, (a, held, named_a)) = ok.bound key b at in
      let (gone, cleared, ids) = expire_tables key b a held (named_a ∙ sym named) in
      unbound-IsBound s (expire_one s key b) key b ok at gone cleared (λ pid there _. rw ids there)

  route_tables :
      (id : Uuid) (now : ℕ) (a : UdpAddr) (b : Binding)
      → lookup id s.udp_addr ≡ some a
      → lookup (addr_string a) s.peer_by_addr ≡ some b
      → b.peer ≡ id
      → ((udp_route s id now).0 ≡ s)
        ⊎ (((udp_route s id now).0.peer_by_addr ≡ delete (addr_string a) s.peer_by_addr)
            × ((udp_route s id now).0.udp_addr ≡ delete id s.udp_addr)
            × ((udp_route s id now).0.peer_by_id ≡ s.peer_by_id))
  unfolding udp_route unbind
  route_tables id now a b at bound mine = ground (arith, ==_iff b.peer id)

  nowhere_route : (id : Uuid) (now : ℕ) → lookup id s.udp_addr ≡ none → (udp_route s id now).0 ≡ s
  unfolding udp_route
  nowhere_route id now h = ground arith

  pub udp_route-IsBound : (id : Uuid) (now : ℕ) → IsBound (udp_route s id now).0
  udp_route-IsBound id now = elim (Option-cases (lookup id s.udp_addr)) [
    | inl nowhere ↦ subst IsBound (sym (nowhere_route id now nowhere)) ok
    | inr (a, at) ↦
        let (b, bound, mine) = ok.held id a at in
        elim (route_tables id now a b at bound mine) [
          | inl same ↦ subst IsBound (sym same) ok
          | inr (gone, cleared, ids) ↦
              unbound-IsBound s (udp_route s id now).0 (addr_string a) b ok bound gone
                (cleared ∙ ap (λ (pid : Uuid). delete pid s.udp_addr) (sym mine))
                (λ pid there _. rw ids there)
        ]
  ]

  pub ping_cases :
      (pkt : List ℕ) (src : UdpAddr) (now : ℕ)
      → ((handle_ping s pkt src now).0 ≡ s)
        ⊎ ((b : Binding) × (lookup (addr_string src) s.peer_by_addr ≡ some b)
            × ((handle_ping s pkt src now).0 ≡ seen s src b now))
  unfolding handle_ping
  ping_cases pkt src now = elim (Option-cases (lookup (addr_string src) s.peer_by_addr)) [
    | inl unknown ↦ inl (ground arith)
    | inr (b, at) ↦ elim (Udp.Result-cases (unpack_udp_ping pkt)) [
      | inl (e, bad) ↦ inl (ground arith)
      | inr (id, good) ↦ elim (Bool-cases (b.peer == id)) [
        | inl y ↦ inr (b, at, ground arith)
        | inr n ↦ inl (ground arith)
      ]
    ]
  ]

  pub handle_ping-IsBound :
      (pkt : List ℕ) (src : UdpAddr) (now : ℕ) → IsBound (handle_ping s pkt src now).0
  handle_ping-IsBound pkt src now = elim (ping_cases pkt src now) [
    | inl same ↦ subst IsBound (sym same) ok
    | inr (b, at, e) ↦ subst IsBound (sym e) (seen-IsBound s ok src b now at)
  ]

expire_candidate-IsBound :
    (now : ℕ) (key : UdpAddr) (b : Binding) (s : Server)
    → IsBound s
    → IsBound (expire_candidate now key b s)
expire_candidate-IsBound now key b s ok = elim (candidate_cases now key b s) [
  | inl (same, _) ↦ subst IsBound (sym same) ok
  | inr (at, _, e) ↦ subst IsBound (sym e) (expire_one-IsBound s ok key b at)
]

expire_over-IsBound :
    (now : ℕ) (m : Map UdpAddr Binding) (s : Server) → IsBound s → IsBound (expire_over now m s)
unfolding expire_over
expire_over-IsBound now [] s ok = ok
expire_over-IsBound now ((key, b) ∷ rest) s ok =
    expire_over-IsBound now rest _ (expire_candidate-IsBound now key b s ok)

pub expire_idle-IsBound : (s : Server) (now : ℕ) → IsBound s → IsBound (expire_idle s now)
unfolding expire_idle
expire_idle-IsBound s now ok = expire_over-IsBound now s.peer_by_addr s ok

module _ (uuid_string : Uuid → String) (peers : Map Uuid Peer) (s : Server) (ok : IsBound s) where
  -- The server behind the limiter's call for the peer of a binding.
  abbrev pub heard : Binding → ℕ → Server
  heard b now = record s {
    audio_limiter = (allow s.audio_limiter now (uuid_string b.peer) s.audio_limit second).0;
  }

  pub audio_cases :
      (pkt : List ℕ) (src : UdpAddr) (now : ℕ) (b : Binding)
      → lookup (addr_string src) s.peer_by_addr ≡ some b
      → ((handle_audio uuid_string s peers pkt src now).0 ≡ heard b now)
        ⊎ ((handle_audio uuid_string s peers pkt src now).0 ≡ seen (heard b now) src b now)
  unfolding handle_audio
  audio_cases pkt src now b at = elim (Audio.Result-cases (unpack pkt)) [
    | inl (e, bad) ↦ inl (ground arith)
    | inr ((hdr, payload), good) ↦ ground arith
  ]

  pub unknown_audio :
      (pkt : List ℕ) (src : UdpAddr) (now : ℕ)
      → lookup (addr_string src) s.peer_by_addr ≡ none
      → (handle_audio uuid_string s peers pkt src now).0 ≡ s
  unfolding handle_audio
  unknown_audio pkt src now h = ground arith

  heard-IsBound : (b : Binding) (now : ℕ) → IsBound (heard b now)
  heard-IsBound b now = record { bound = ok.bound; held = ok.held }

  pub handle_audio-IsBound :
      (pkt : List ℕ) (src : UdpAddr) (now : ℕ)
      → IsBound (handle_audio uuid_string s peers pkt src now).0
  handle_audio-IsBound pkt src now = elim (Option-cases (lookup (addr_string src) s.peer_by_addr)) [
    | inl unknown ↦ subst IsBound (sym (unknown_audio pkt src now unknown)) ok
    | inr (b, at) ↦ elim (audio_cases pkt src now b at) [
      | inl e ↦ subst IsBound (sym e) (heard-IsBound b now)
      | inr e ↦
          subst IsBound (sym e) (seen-IsBound (heard b now) (heard-IsBound b now) src b now at)
    ]
  ]

  pub dispatch_cases :
      (pkt : List ℕ) (src : UdpAddr) (now : ℕ)
      → ((dispatch uuid_string s peers pkt src now).0 ≡ s)
        ⊎ ((dispatch uuid_string s peers pkt src now).0
            ≡ (handle_audio uuid_string s peers pkt src now).0)
        ⊎ ((dispatch uuid_string s peers pkt src now).0
            ≡ (handle_hello uuid_string s pkt src now).0)
        ⊎ ((dispatch uuid_string s peers pkt src now).0 ≡ (handle_ping s pkt src now).0)
  unfolding dispatch
  dispatch_cases pkt src now = ground arith

  pub dispatch-IsBound :
      (pkt : List ℕ) (src : UdpAddr) (now : ℕ)
      → IsBound (dispatch uuid_string s peers pkt src now).0
  dispatch-IsBound pkt src now = elim (dispatch_cases pkt src now) [
    | inl e ↦ subst IsBound (sym e) ok
    | inr (inl e) ↦ subst IsBound (sym e) (handle_audio-IsBound pkt src now)
    | inr (inr (inl e)) ↦ subst IsBound (sym e) (handle_hello-IsBound uuid_string s src now pkt ok)
    | inr (inr (inr e)) ↦ subst IsBound (sym e) (handle_ping-IsBound s ok pkt src now)
  ]

module _ (uuid_string : Uuid → String) where
  -- What can happen to the data plane: a session mints a token, attaches or detaches its peer; a
  -- datagram comes from anywhere; the sweep runs; the fan-out asks for a peer's route.
  pub data Step (s : Server) : Server → Type 0 where
    mints : (id : Uuid) (token : Option (List ℕ)) → Step s (mint_token s id token).0
    attaches : (id : Uuid) → Step s (attach_peer s id)
    detaches : (id : Uuid) → Step s (detach_peer s id)
    receives :
        (peers : Map Uuid Peer) (pkt : List ℕ) (src : UdpAddr) (now : ℕ)
        → Step s (dispatch uuid_string s peers pkt src now).0
    sweeps : (now : ℕ) → Step s (expire_idle s now)
    routes : (id : Uuid) (now : ℕ) → Step s (udp_route s id now).0

  pub data Reach (s : Server) : Server → Type 0 where
    here : Reach s s
    next : {t u : Server} → Reach s t → Step t u → Reach s u

  Step-IsBound : {s t : Server} → Step s t → IsBound s → IsBound t
  Step-IsBound {s} (mints id token) ok = mint_token-IsBound s ok id token
  Step-IsBound {s} (attaches id) ok = attach_peer-IsBound s ok id
  Step-IsBound {s} (detaches id) ok = detach_peer-IsBound s ok id
  Step-IsBound {s} (receives peers pkt src now) ok =
      dispatch-IsBound uuid_string peers s ok pkt src now
  Step-IsBound {s} (sweeps now) ok = expire_idle-IsBound s now ok
  Step-IsBound {s} (routes id now) ok = udp_route-IsBound s ok id now

  -- Whatever datagrams, sessions, sweeps and sends come in whatever order, an address stays bound
  -- to one attached peer, and a peer to one address.
  pub Reach-IsBound : {s t : Server} → IsBound s → Reach s t → IsBound t
  Reach-IsBound ok here = ok
  Reach-IsBound ok (next run step) = Step-IsBound step (Reach-IsBound ok run)

-- A new server has no bindings.
pub new_server-IsBound :
    (hello_limit audio_limit : ℕ) → IsBound (new_server hello_limit audio_limit)
unfolding lookup
new_server-IsBound hello_limit audio_limit = record {
  bound = λ key b h. absurd (ground arith);
  held = λ id a h. absurd (ground arith);
}
