-- ===== src/Relay/Opening.antt =====
-- The hello, under the invariants of the whole server.
use network_ultra_server.Prelude.{
  arith, ◌⊎◌, ℕ, ◌≡◌, refl, String, Bool, true, false, List, Option, none, ◌==◌, ltb, inl, inr,
  Bool-cases, Option-cases, bytes_eq, string_eq,
}
use network_ultra_server.Prelude.Maps.{lookup}
use network_ultra_server.RateLimit.Limiter.{allow}
use network_ultra_server.Room.State.{Uuid, put_peer}
use network_ultra_server.Room.Invariant.Runs.{connect-Coherent}
use network_ultra_server.Udp.Handlers.{mint_token, attach_peer}
use network_ultra_server.Udp.Binding.Ops.{attach_peer-IsBound, mint_token-IsBound}
use network_ultra_server.Ws.State.{Envelope, Libraries, decode}
use network_ultra_server.Ws.Rooms.{minute}
use network_ultra_server.Ws.Session.{
  System, session_peer, admit, refuse_hello, read_hello, open_session, protocol_version,
}
use network_ultra_server.Relay.Sound.{IsSound}

module _ (lib : Libraries) (remote_ip : String) (id : Uuid) (now : ℕ) where
  -- What a new session does to the registry and to the data plane.
  admit_cases :
      (s : System) (username request : String) (advertised : Bool) (token : Option (List ℕ))
      → let t = (admit lib s remote_ip username request id now advertised token).0 in
        let p = record (session_peer lib id now remote_ip username) { udp_send = s.has_udp } in
        ((t.hub.world ≡ s.hub.world) × (t.udp ≡ s.udp))
        ⊎ ((t.hub.world ≡ put_peer s.hub.world p)
            × ((t.udp ≡ s.udp)
                ⊎ ((t.udp ≡ attach_peer s.udp id)
                    ⊎ (t.udp ≡ attach_peer (mint_token s.udp id token).0 id))))
  unfolding admit mint_token
  admit_cases s username request advertised token = elim (Bool-cases s.has_udp) [
    | inr off ↦ inr (ground arith, inl (ground arith))
    | inl on ↦ elim (Bool-cases advertised) [
      | inr quiet ↦ inr (ground arith, inr (inl (ground arith)))
      | inl told ↦ elim (Option-cases token) [
        | inl dry ↦ inl (ground arith, ground arith)
        | inr (t, drawn) ↦ inr (ground arith, inr (inr (ground arith)))
      ]
    ]
  ]

  admit-IsSound :
      (s : System) (username request : String) (advertised : Bool) (token : Option (List ℕ))
      → IsSound s
      → lookup id s.hub.world.peers ≡ none
      → IsSound (admit lib s remote_ip username request id now advertised token).0
  admit-IsSound s username request advertised token ok unknown =
      elim (admit_cases s username request advertised token) [
        | inl (world, udp) ↦ record { coherent = rw world ok.coherent; bound = rw udp ok.bound }
        | inr (world, udp) ↦ record {
          coherent = rw world (connect-Coherent s.hub.world _ ok.coherent unknown refl);
          bound = elim udp [
            | inl e ↦ rw e ok.bound
            | inr (inl e) ↦ rw e (attach_peer-IsBound s.udp ok.bound id)
            | inr (inr e) ↦
                rw e (attach_peer-IsBound _ (mint_token-IsBound s.udp ok.bound id token) id)
          ];
        }
      ]

  module _ (s : System) (ok : IsSound s) (unknown : lookup id s.hub.world.peers ≡ none)
      (advertised : Bool) (token : Option (List ℕ)) where
    read-IsSound :
        (env : Envelope) → IsSound (read_hello lib s env remote_ip id now advertised token).0
    unfolding read_hello
    read-IsSound env = elim (Bool-cases (env.type_name == "hello")) [
      | inr n ↦ rw (n, read_hello) ok
      | inl y ↦ elim (Bool-cases (ltb protocol_version env.v)) [
        | inl newer ↦ rw (y, newer, read_hello) ok
        | inr n ↦ elim (Option-cases (lib.unmarshal_hello env.data_bytes)) [
          | inl bad ↦ rw (y, n, bad, read_hello) ok
          | inr (d, good) ↦ elim (Option-cases (refuse_hello lib s.hub env d)) [
            | inr (code, refused) ↦ rw (y, n, good, refused, read_hello) ok
            | inl let_in ↦
                rw (y, n, good, let_in, read_hello)
                  (admit-IsSound s d.username env.id advertised token ok unknown)
          ]
        ]
      ]
    ]

  pub open_session-IsSound :
      (s : System) (text : Bool) (payload : List ℕ) (advertised : Bool) (token : Option (List ℕ))
      → IsSound s
      → lookup id s.hub.world.peers ≡ none
      → IsSound (open_session lib s text payload remote_ip id now advertised token).0
  unfolding open_session
  open_session-IsSound s false payload advertised token ok unknown = ok
  open_session-IsSound s true payload advertised token ok unknown =
      elim (Bool-cases (lib.utf8_valid payload)) [
        | inr n ↦ rw (n, open_session) ok
        | inl y ↦
            elim (Bool-cases
              (allow s.hub.hello_limiter now remote_ip s.hub.rate_limits.hello_per_ip_per_minute
                minute).1) [
                  | inr n ↦
                      rw (y, n, open_session) (record { coherent = ok.coherent; bound = ok.bound })
                  | inl fits ↦ elim (Option-cases (decode lib payload)) [
                    | inl bad ↦
                        rw (y, fits, bad, open_session)
                          (record { coherent = ok.coherent; bound = ok.bound })
                    | inr (env, good) ↦
                        rw (y, fits, good, open_session)
                          (read-IsSound limited
                            (record { coherent = ok.coherent; bound = ok.bound }) unknown advertised
                            token env)
                  ]
                ]
      ]
    where
      limited : System
      limited = record s {
        hub = record s.hub {
          hello_limiter =
              (allow s.hub.hello_limiter now remote_ip s.hub.rate_limits.hello_per_ip_per_minute
                minute).0;
        };
      }
