-- ===== src/Udp/Binding/Hello.antt =====
-- What a hello binds.
use network_ultra_server.Prelude.{
  ℕ, ◌≡◌, refl, ap, ◌⊎◌, inl, inr, String, Bool, true, false, List, [], some, ◌==◌, ==_iff, ==_refl,
  arith, if◌then◌else◌, bytes_eq, Bool-cases, subst, Option-cases,
}
use network_ultra_server.Prelude.Maps.{lookup, insert, has, lookup-insert}
use network_ultra_server.Proto.Udp.{UdpHelloFrame, unpack_udp_hello, pack_udp_welcome}
use network_ultra_server.Proto.Udp
use network_ultra_server.RateLimit.Limiter.{allow}
use network_ultra_server.Room.State.{Uuid}
use network_ultra_server.Udp.State.{UdpAddr, addr_eq, addr_string, Binding, Server, minute}
use network_ultra_server.Udp.Handlers.{
  Verdict, handle_hello, check_hello, bind_endpoint, is_rebind, is_taken,
}
use network_ultra_server.Udp.Binding.{IsBound}

-- Nothing changed but the limiters.
abbrev pub SameMaps : Server → Server → Type 0
SameMaps s t =
    (t.peer_by_addr ≡ s.peer_by_addr)
    × (t.peer_by_id ≡ s.peer_by_id)
    × (t.token_by_id ≡ s.token_by_id)
    × (t.udp_addr ≡ s.udp_addr)

-- The server with the peer bound to the address.
abbrev pub bind : Server → Uuid → List ℕ → UdpAddr → ℕ → Server
bind s id token src now = record s {
  udp_addr = insert id src s.udp_addr;
  peer_by_addr =
      insert (addr_string src) (record { peer = id; addr = src; token = token; last_seen = now })
        s.peer_by_addr;
}

-- The address is the peer's own, if it has one, and nobody else's.
abbrev pub Free : Server → Uuid → UdpAddr → Type 0
Free s id src =
    ((a : UdpAddr) → lookup id s.udp_addr ≡ some a → addr_string a ≡ addr_string src)
    × ((b : Binding) → lookup (addr_string src) s.peer_by_addr ≡ some b → b.peer ≡ id)

abbrev pub replies : Verdict → Bool
replies (Verdict.replied _) = true
replies _ = false

module _ (uuid_string : Uuid → String) (s : Server) (src : UdpAddr) (now : ℕ) where
  -- The server behind the limiter's call for a peer.
  abbrev pub counted : Uuid → Server
  counted id = record s {
    hello_limiter = (allow s.hello_limiter now (uuid_string id) s.hello_limit minute).0;
  }

  bind_cases :
      (id : Uuid) (token : List ℕ)
      → ((replies (bind_endpoint uuid_string s id token src now).1 ≡ false)
          × SameMaps s (bind_endpoint uuid_string s id token src now).0)
        ⊎ ((is_rebind (lookup id s.udp_addr) src ≡ false)
            × (is_taken (lookup (addr_string src) s.peer_by_addr) id ≡ false)
            × (bind_endpoint uuid_string s id token src now
                ≡ (bind (counted id) id token src now, Verdict.replied (pack_udp_welcome id []))))
  unfolding bind_endpoint
  bind_cases id token = ground arith

  -- Why a hello is let in.
  abbrev pub Admits : UdpHelloFrame → Type 0
  Admits hello =
      (has hello.peer_id s.peer_by_id ≡ true)
      × (lookup hello.peer_id s.token_by_id ≡ some hello.token)
      × (is_rebind (lookup hello.peer_id s.udp_addr) src ≡ false)
      × (is_taken (lookup (addr_string src) s.peer_by_addr) hello.peer_id ≡ false)

  check_cases :
      (hello : UdpHelloFrame)
      → ((replies (check_hello uuid_string s hello src now).1 ≡ false)
          × SameMaps s (check_hello uuid_string s hello src now).0)
        ⊎ (Admits hello
            × (check_hello uuid_string s hello src now ≡ (
              bind (counted hello.peer_id) hello.peer_id hello.token src now,
              Verdict.replied (pack_udp_welcome hello.peer_id []),
            )))
  unfolding check_hello
  check_cases hello = elim (Option-cases (lookup hello.peer_id s.token_by_id)) [
    | inl none_minted ↦ inl (ground arith)
    | inr (token, minted) ↦ ground (arith, bind_cases hello.peer_id token, ==_iff hello.token token)
  ]

  module _ (pkt : List ℕ) where
    -- A hello that gets no reply changes no map; one that gets a reply carries the token of an
    -- attached peer, comes from no other address than the peer's, which is nobody else's, and
    -- binds the peer there.
    pub handle_hello_cases :
        ((replies (handle_hello uuid_string s pkt src now).1 ≡ false)
          × SameMaps s (handle_hello uuid_string s pkt src now).0)
        ⊎ ((hello : UdpHelloFrame) × (unpack_udp_hello pkt ≡ Udp.ok hello)
            × Admits hello
            × (handle_hello uuid_string s pkt src now ≡ (
              bind (counted hello.peer_id) hello.peer_id hello.token src now,
              Verdict.replied (pack_udp_welcome hello.peer_id []),
            )))
    unfolding handle_hello
    handle_hello_cases = elim (Udp.Result-cases (unpack_udp_hello pkt)) [
      | inl (e, bad) ↦ inl (rw (bad, handle_hello) (refl, (refl, refl, refl, refl)))
      | inr (hello, good) ↦ elim (check_cases hello) [
        | inl out ↦ inl (rw (good, handle_hello) out)
        | inr (why, done) ↦ inr (hello, good, why, rw (good, handle_hello) done)
      ]
    ]

module _ (s : Server) (id : Uuid) (token : List ℕ) (src : UdpAddr) (now : ℕ) where
  abbrev newly_bound : Binding
  newly_bound = record { peer = id; addr = src; token = token; last_seen = now }

  binding_at :
      (key : UdpAddr)
      → lookup key (bind s id token src now).peer_by_addr
        ≡ (if addr_string src == key then some newly_bound else lookup key s.peer_by_addr)
  binding_at key = lookup-insert (addr_string src) key newly_bound s.peer_by_addr

  pub addr_at :
      (pid : Uuid)
      → lookup pid (bind s id token src now).udp_addr
        ≡ (if id == pid then some src else lookup pid s.udp_addr)
  addr_at pid = lookup-insert id pid src s.udp_addr

  pub not_rebind :
      is_rebind (lookup id s.udp_addr) src ≡ false
      → (a : UdpAddr) → lookup id s.udp_addr ≡ some a
      → addr_string a ≡ addr_string src
  unfolding is_rebind
  not_rebind h a e = ground (arith, ==_iff (addr_string a) (addr_string src))

  not_taken :
      is_taken (lookup (addr_string src) s.peer_by_addr) id ≡ false
      → (b : Binding) → lookup (addr_string src) s.peer_by_addr ≡ some b
      → b.peer ≡ id
  unfolding is_taken
  not_taken h b e = ground (arith, ==_iff b.peer id)

  module _ (ok : IsBound s) (attached : has id s.peer_by_id ≡ true)
      (same : is_rebind (lookup id s.udp_addr) src ≡ false)
      (own : is_taken (lookup (addr_string src) s.peer_by_addr) id ≡ false) where
    bound :
        (key : UdpAddr) (b : Binding)
        → lookup key (bind s id token src now).peer_by_addr ≡ some b
        → (addr_string b.addr ≡ key)
          × (has b.peer s.peer_by_id ≡ true)
          × ((a : UdpAddr) × (lookup b.peer (bind s id token src now).udp_addr ≡ some a)
              × (addr_string a ≡ key))
    bound key b h = elim (Bool-cases (addr_string src == key)) [
      | inl y ↦
          let k : addr_string src ≡ key = (==_iff (addr_string src) key).0 y in
          let e : newly_bound ≡ b = ground (arith, binding_at key) in
          subst
            (λ (c : Binding).
              (addr_string c.addr ≡ key)
              × (has c.peer s.peer_by_id ≡ true)
              × ((a : UdpAddr) × (lookup c.peer (bind s id token src now).udp_addr ≡ some a)
                  × (addr_string a ≡ key)))
            e (k, attached, (src, ground (arith, addr_at id, ==_refl id), k))
      | inr n ↦
          let (named, there, (a, at, named_a)) = ok.bound key b (ground (arith, binding_at key)) in
          (
            named,
            there,
            (
              a,
              ground (
                arith,
                addr_at b.peer,
                at,
                named_a,
                ==_iff id b.peer,
                not_rebind same a,
                ==_iff (addr_string src) key,
              ),
              named_a,
            ),
          )
    ]

    held :
        (pid : Uuid) (a : UdpAddr)
        → lookup pid (bind s id token src now).udp_addr ≡ some a
        → (b : Binding) × (lookup (addr_string a) (bind s id token src now).peer_by_addr ≡ some b)
          × (b.peer ≡ pid)
    held pid a h = elim (Bool-cases (id == pid)) [
      | inl y ↦
          let e : src ≡ a = ground (arith, addr_at pid) in
          (
            newly_bound,
            ground (
              arith,
              binding_at (addr_string a),
              ap addr_string e,
              ==_iff (addr_string src) (addr_string a),
            ),
            (==_iff id pid).0 y,
          )
      | inr n ↦
          let (b, at, mine) = ok.held pid a (ground (arith, addr_at pid)) in
          (
            b,
            ground (
              arith,
              binding_at (addr_string a),
              at,
              not_taken own b,
              ==_iff (addr_string src) (addr_string a),
              ==_iff id pid,
            ),
            mine,
          )
    ]

    bind-IsBound : IsBound (bind s id token src now)
    bind-IsBound = record { bound = bound; held = held }

-- The same maps, the same invariant.
pub same-IsBound : (s t : Server) → SameMaps s t → IsBound s → IsBound t
same-IsBound s t same ok = record {
  bound = λ key b h.
      let (named, there, (a, at, named_a)) = ok.bound key b (ground (arith, same.0)) in
      (named, rw same.1 there, (a, rw same.3 at, named_a));
  held = λ id a h.
      let (b, at, mine) = ok.held id a (ground (arith, same.3)) in (b, rw same.0 at, mine);
}

-- A hello, whatever it carries, keeps the invariant.
pub handle_hello-IsBound :
    (uuid_string : Uuid → String) (s : Server) (src : UdpAddr) (now : ℕ) (pkt : List ℕ)
    → IsBound s
    → IsBound (handle_hello uuid_string s pkt src now).0
handle_hello-IsBound uuid_string s src now pkt ok =
    elim (handle_hello_cases uuid_string s src now pkt) [
      | inl (_, same) ↦ same-IsBound s _ same ok
      | inr (hello, _, (attached, _, same, own), e) ↦ rw e (
          bind-IsBound (counted uuid_string s src now hello.peer_id) hello.peer_id hello.token src
            now (record { bound = ok.bound; held = ok.held }) attached same own)
    ]
