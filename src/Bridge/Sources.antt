-- ===== src/Bridge/Sources.antt =====
-- Who uses a proxy: its runs over any sequence of datagrams at its two sockets.
use network_ultra_server.Prelude.{
  All, ℕ, ◌≡◌, refl, sym, ◌⊎◌, inl, inr, true, List, [], ◌∷◌, Option, none, some, arith, ==_iff,
  Bool-cases, Option-cases, bytes_eq, bytes_eqb_iff, ap, subst,
}
use mathlib.Core.List.{Memᴰ}
use text.Mathlib.TextEquality.{eq_iff}
use network_ultra_server.Proto.Udp
use network_ultra_server.Proto.Udp.{UdpHelloFrame, unpack_udp_hello}
use network_ultra_server.Room.State.{Uuid}
use network_ultra_server.Udp.State.{UdpAddr, addr_eq, addr_string, same_udp_addr, short_ip}
use network_ultra_server.Bridge.Proxy.{
  UdpProxy, new_udp_proxy, is_expected, accept_hello, loop_from_plugin, is_welcome,
  complete_binding, loop_from_upstream,
}

-- A datagram at the loopback socket, or at the one towards the server.
pub data Datagram : Type 0 where
  local remote : List ℕ → UdpAddr → Datagram

-- Where the datagrams that a run sent up came from; where those that it sent down went, and where
-- they came from.
pub record Trace : Type 0 where
  pub proxy : UdpProxy
  pub up : List UdpAddr
  pub down : List (UdpAddr × UdpAddr)

unfoldable noted : List UdpAddr → UdpAddr → Option (List ℕ) → List UdpAddr
noted up src none = up
noted up src (some _) = src ∷ up

unfoldable delivered :
    List (UdpAddr × UdpAddr) → UdpAddr → Option (UdpAddr × List ℕ) → List (UdpAddr × UdpAddr)
delivered down src none = down
delivered down src (some (dst, _)) = (dst, src) ∷ down

unfoldable pub relay_datagram : Trace → Datagram → Trace
unfolding noted delivered
relay_datagram t (Datagram.local pkt src) =
    let (p, sent) = loop_from_plugin t.proxy pkt src in
    record t { proxy = p; up = noted t.up src sent }
relay_datagram t (Datagram.remote pkt src) =
    let (p, sent) = loop_from_upstream t.proxy pkt src in
    record t { proxy = p; down = delivered t.down src sent }

unfoldable pub relay_all : Trace → List Datagram → Trace
relay_all t [] = t
relay_all t (d ∷ ds) = relay_all (relay_datagram t d) ds

-- The address that has said hello: bound, or waiting for the server's welcome.
abbrev pub holder : UdpProxy → Option UdpAddr
holder p = elim p.plugin_addr [ some a ↦ some a | none ↦ p.pending_addr ]

-- The two are the same address, however its bytes are written.
abbrev pub Same : UdpAddr → UdpAddr → Type 0
Same a b = addr_string b ≡ addr_string a

same_udp_addr-Same : (a b : UdpAddr) → same_udp_addr (some a) b ≡ true → Same b a
unfolding same_udp_addr addr_string
same_udp_addr-Same a b h =
    ground (arith, bytes_eqb_iff (short_ip a.ip) (short_ip b.ip), eq_iff a.zone b.zone)

-- What a turn for the plugin's side comes to: nothing, or a datagram from the holder, who is the
-- one of before, or just said hello.
loop_from_plugin_cases :
    (p : UdpProxy) (pkt : List ℕ) (src : UdpAddr)
    → (loop_from_plugin p pkt src ≡ (p, none))
      ⊎ ((h : UdpAddr) × (holder p ≡ some h)
          × (loop_from_plugin p pkt src ≡ (p, some pkt))
          × Same h src)
      ⊎ ((hello : UdpHelloFrame) × (holder p ≡ none)
          × (unpack_udp_hello pkt ≡ Udp.ok hello)
          × (is_expected p hello ≡ true)
          × (loop_from_plugin p pkt src ≡ (record p { pending_addr = some src }, some pkt)))
unfolding loop_from_plugin accept_hello
loop_from_plugin_cases p pkt src = elim (Option-cases p.plugin_addr) [
  | inr (bound, at) ↦ elim (Bool-cases (same_udp_addr (some src) bound)) [
    | inl y ↦ inr (inl (bound, ground arith, ground arith, same_udp_addr-Same src bound y))
    | inr n ↦ inl (ground arith)
  ]
  | inl unbound ↦ elim (Udp.Result-cases (unpack_udp_hello pkt)) [
    | inl (e, bad) ↦ inl (ground arith)
    | inr (hello, good) ↦ elim (Bool-cases (is_expected p hello)) [
      | inr n ↦ inl (ground arith)
      | inl y ↦ elim (Option-cases p.pending_addr) [
        | inl nobody ↦ inr (inr (hello, ground arith, good, y, ground arith))
        | inr (h, at) ↦ elim (Bool-cases (same_udp_addr (some src) h)) [
          | inl s ↦ inr (inl (h, ground arith, ground arith, same_udp_addr-Same src h s))
          | inr n ↦ inl (ground arith)
        ]
      ]
    ]
  ]
]

-- What a turn for the server's side comes to: nothing, or a datagram from the server to the holder.
loop_from_upstream_cases :
    (p : UdpProxy) (pkt : List ℕ) (src : UdpAddr)
    → (loop_from_upstream p pkt src ≡ (p, none))
      ⊎ ((h : UdpAddr) × (holder p ≡ some h)
          × ((rest : Option UdpAddr) × (loop_from_upstream p pkt src
                ≡ (record p { plugin_addr = some h; pending_addr = rest }, some (h, pkt))))
          × Same p.upstream src)
unfolding loop_from_upstream complete_binding
loop_from_upstream_cases p pkt src = elim (Bool-cases (same_udp_addr (some src) p.upstream)) [
  | inr n ↦ inl (ground arith)
  | inl y ↦ elim (Option-cases p.plugin_addr) [
    | inr (h, at) ↦
        inr (h, ground arith, (p.pending_addr, ground arith), same_udp_addr-Same src p.upstream y)
    | inl unbound ↦ elim (Option-cases p.pending_addr) [
      | inl nobody ↦ inl (ground arith)
      | inr (h, at) ↦ elim (Bool-cases (is_welcome p pkt)) [
        | inr n ↦ inl (ground arith)
        | inl w ↦ inr (h, ground arith, (none, ground arith), same_udp_addr-Same src p.upstream y)
      ]
    ]
  ]
]

abbrev pub start : UdpProxy → Trace
start p = record { proxy = p; up = []; down = [] }

module _ (upstream : UdpAddr) (peer : Uuid) (token : List ℕ) where
  -- What the proxy was made for.
  abbrev IsFor : UdpProxy → Type 0
  IsFor p = (p.upstream ≡ upstream) × (p.expected_peer ≡ peer) × (p.expected_token ≡ token)

  -- Either nobody has said hello and nothing went either way, or somebody did, with the peer's
  -- token, in one of the datagrams that were seen: then every datagram that went up came from
  -- there, and every one that went down came from the server and went there.
  pub data Owned (seen : Datagram → Type 0) (t : Trace) : Type 0 where
    nobody : holder t.proxy ≡ none → t.up ≡ [] → t.down ≡ [] → Owned seen t
    somebody :
        (pkt : List ℕ) (h : UdpAddr) (hello : UdpHelloFrame)
        → seen (Datagram.local pkt h)
        → unpack_udp_hello pkt ≡ Udp.ok hello
        → hello.peer_id ≡ peer
        → hello.token ≡ token
        → holder t.proxy ≡ some h
        → All (Same h) t.up
        → All (λ d. Same h d.0 × Same upstream d.1) t.down
        → Owned seen t

  same_holder : (h k : UdpAddr) (o : Option UdpAddr) → o ≡ some h → o ≡ some k → h ≡ k
  same_holder h k o e f = ground arith

  module _ (seen : Datagram → Type 0) where
    sends_up :
        (t : Trace) (h src : UdpAddr)
        → holder t.proxy ≡ some h
        → Same h src
        → Owned seen t
        → Owned seen (record t { up = src ∷ t.up })
    sends_up t h src at same (nobody e _ _) = absurd (ground arith)
    sends_up t h src at same (somebody pkt k hello s good id tok held ups downs) =
        somebody pkt k hello s good id tok held
          (subst (λ a. Same a src) (same_holder h k _ at held) same, ups) downs

    sends_down :
        (t : Trace) (h src : UdpAddr) (rest : Option UdpAddr)
        → holder t.proxy ≡ some h
        → Same upstream src
        → Owned seen t
        → Owned seen (record t {
          proxy = record t.proxy { plugin_addr = some h; pending_addr = rest };
          down = (h, src) ∷ t.down;
        })
    sends_down t h src rest at same (nobody e _ _) = absurd (ground arith)
    sends_down t h src rest at same (somebody pkt k hello s good id tok held ups downs) =
        let e : h ≡ k = same_holder h k _ at held in
        somebody pkt k hello s good id tok (ap some e) ups
          ((subst (λ a. Same k a) (sym e) refl, same), downs)

    introduces :
        (t : Trace) (pkt : List ℕ) (src : UdpAddr) (hello : UdpHelloFrame)
        → seen (Datagram.local pkt src)
        → IsFor t.proxy
        → holder t.proxy ≡ none
        → unpack_udp_hello pkt ≡ Udp.ok hello
        → is_expected t.proxy hello ≡ true
        → Owned seen t
        → Owned seen
            (record t { proxy = record t.proxy { pending_addr = some src }; up = src ∷ t.up })
    unfolding is_expected
    introduces t pkt src hello s for none_yet good ok (somebody _ _ _ _ _ _ _ held _ _) =
        absurd (ground arith)
    introduces t pkt src hello s (_, id, tok) none_yet good ok (nobody _ no_ups no_downs) =
        somebody pkt src hello s good (ground (arith, ==_iff hello.peer_id t.proxy.expected_peer))
          (ground (arith, ==_iff hello.token t.proxy.expected_token)) (ground arith)
          (refl, rw no_ups tt) (rw no_downs tt)

    relay_datagram-Owned :
        (t : Trace) (d : Datagram)
        → seen d
        → IsFor t.proxy
        → Owned seen t
        → IsFor (relay_datagram t d).proxy × Owned seen (relay_datagram t d)
    unfolding relay_datagram noted delivered
    relay_datagram-Owned t (Datagram.local pkt src) now for o =
        elim (loop_from_plugin_cases t.proxy pkt src) [
          | inl e ↦ rw e (for, o)
          | inr (inl (h, at, e, same)) ↦ rw e (for, sends_up t h src at same o)
          | inr (inr (hello, at, good, ok, e)) ↦
              rw e (for, introduces t pkt src hello now for at good ok o)
        ]
    relay_datagram-Owned t (Datagram.remote pkt src) now for o =
        elim (loop_from_upstream_cases t.proxy pkt src) [
          | inl e ↦ rw e (for, o)
          | inr (h, at, (rest, e), same) ↦
              rw e (for, sends_down t h src rest at (subst (λ a. Same a src) for.0 same) o)
        ]

    relay_all-Owned :
        (t : Trace) (ds : List Datagram)
        → ((d : Datagram) → Memᴰ d ds → seen d)
        → IsFor t.proxy
        → Owned seen t
        → Owned seen (relay_all t ds)
    unfolding relay_all
    relay_all-Owned t [] all for o = o
    relay_all-Owned t (d ∷ ds) all for o =
        let (for', o') = relay_datagram-Owned t d (all d (Memᴰ.head refl)) for o in
        relay_all-Owned (relay_datagram t d) ds (λ e m. all e (Memᴰ.tail m)) for' o'

  -- Whatever datagrams arrive at the two sockets of a new proxy, either nobody has said hello and
  -- nothing went up or down, or one of the datagrams that came in was a hello with the session's
  -- peer and token, every datagram that went up came from that hello's address, and every datagram
  -- that went down came from the server's address and went to the hello's.
  pub proxy_owner :
      (ds : List Datagram)
      → Owned (λ d. Memᴰ d ds) (relay_all (start (new_udp_proxy upstream peer token)) ds)
  proxy_owner ds =
      relay_all-Owned (λ d. Memᴰ d ds) (start (new_udp_proxy upstream peer token)) ds (λ d m. m)
        (refl, refl, refl) (nobody refl refl refl)
