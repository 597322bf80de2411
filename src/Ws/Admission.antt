-- ===== src/Ws/Admission.antt =====
-- Who gets a session, and what a refused hello leaves behind.
use network_ultra_server.Prelude.{
  ◌&&◌, ℕ, ◌≡◌, refl, ◌⊎◌, inl, inr, String, Bool, true, List, Option, none, some, arith, length,
  Bool-cases, Option-cases, subst, bytes_eq, string_eq,
}
use text.Mathlib.TextEquality.{eq_iff}
use network_ultra_server.Prelude.Maps.{lookup, lookup-insert_self}
use network_ultra_server.RateLimit.Limiter.{allow}
use network_ultra_server.Room.State.{Uuid, Peer}
use network_ultra_server.Udp.Handlers.{mint_token}
use network_ultra_server.Ws.Labels.{bytes_of, trim_space, valid_username}
use network_ultra_server.Ws.State.{
  Hub, ErrorCode, Envelope, HelloData, Libraries, decode, do_password_work,
}
use network_ultra_server.Ws.Rooms.{minute}
use network_ultra_server.Ws.Session.{
  System, Opening, check_server_password, session_peer, admit, refuse_hello, read_hello,
  open_session,
}

module _ (lib : Libraries) where
  -- The server has no password, or the one given compares with its hash.
  abbrev pub Knows : Hub → String → Type 0
  Knows h password =
      (length h.server_password_hash ≡ 0)
      ⊎ (lib.compare_hash (some h.server_password_hash) (bytes_of password) ≡ true)

  password_lem :
      (h : Hub) (password : String) → check_server_password lib h password ≡ none → Knows h password
  unfolding check_server_password do_password_work
  password_lem h password good =
      elim (Bool-cases (lib.compare_hash (some h.server_password_hash) (bytes_of password))) [
        | inl y ↦ inr y
        | inr n ↦ inl (ground arith)
      ]

  refuse_lem :
      (h : Hub) (env : Envelope) (d : HelloData)
      → refuse_hello lib h env d ≡ none
      → (valid_username d.username ≡ true) × Knows h d.server_password
  unfolding refuse_hello
  refuse_lem h env d good = (ground arith, password_lem h d.server_password (ground arith))

  module _ (s : System) (payload : List ℕ) (remote_ip : String) (id : Uuid) (now : ℕ)
      (advertised : Bool) (token : Option (List ℕ)) where
    -- What an opened session shows of its hello.
    abbrev pub Shows : Peer → Envelope → HelloData → Type 0
    Shows p env d =
        (env.type_name ≡ "hello")
        × (lib.unmarshal_hello env.data_bytes ≡ some d)
        × (valid_username d.username ≡ true)
        × Knows s.hub d.server_password
        × (p.id ≡ id)
        × (p.username ≡ trim_space d.username)
        × (p.cur_room ≡ none)

    abbrev newcomer : System → String → Peer
    newcomer t username = record (session_peer lib id now remote_ip username) {
      udp_send = t.has_udp;
    }

    abbrev outcome : System × Opening
    outcome = open_session lib s true payload remote_ip id now advertised token

    abbrev limited : System
    limited = record s {
      hub = record s.hub {
        hello_limiter =
            (allow s.hub.hello_limiter now remote_ip s.hub.rate_limits.hello_per_ip_per_minute
              minute).0;
      };
    }

    admit_cases :
        (t : System) (username request : String)
        → ((admit lib t remote_ip username request id now advertised token).1 ≡ Opening.failed)
          ⊎ (((admit lib t remote_ip username request id now advertised token).1
                ≡ Opening.opened (newcomer t username))
              × (lookup id
                    (admit lib t remote_ip username request id now advertised
                      token).0.hub.world.peers
                  ≡ some (newcomer t username)))
    unfolding admit mint_token
    admit_cases t username request = elim (Bool-cases (t.has_udp && advertised)) [
      | inr n ↦ inr (ground (arith, lookup-insert_self id (newcomer t username) t.hub.world.peers))
      | inl y ↦ elim (Option-cases token) [
        | inl dry ↦ inl (ground arith)
        | inr (bytes, drawn) ↦
            inr (ground (arith, lookup-insert_self id (newcomer t username) t.hub.world.peers))
      ]
    ]

    reached :
        (t : System) (env : Envelope) (d : HelloData) (p : Peer)
        → lib.unmarshal_hello env.data_bytes ≡ some d
        → refuse_hello lib t.hub env d ≡ none
        → (read_hello lib t env remote_ip id now advertised token).1 ≡ Opening.opened p
        → (env.type_name ≡ "hello")
          × (read_hello lib t env remote_ip id now advertised token
              ≡ admit lib t remote_ip d.username env.id id now advertised token)
    unfolding read_hello
    reached t env d p good let_in h = (ground (arith, eq_iff env.type_name "hello"), ground arith)

    read_cases :
        (t : System) (env : Envelope) (p : Peer)
        → t.hub.server_password_hash ≡ s.hub.server_password_hash
        → (read_hello lib t env remote_ip id now advertised token).1 ≡ Opening.opened p
        → (d : HelloData) × Shows p env d
          × (lookup id (read_hello lib t env remote_ip id now advertised token).0.hub.world.peers
              ≡ some p)
    unfolding read_hello
    read_cases t env p same h = elim (Option-cases (lib.unmarshal_hello env.data_bytes)) [
      | inl bad ↦ absurd (ground arith)
      | inr (d, good) ↦ elim (Option-cases (refuse_hello lib t.hub env d)) [
        | inr (code, refused) ↦ absurd (ground arith)
        | inl let_in ↦
            let (named, knows) = refuse_lem t.hub env d let_in in
            let (typed, e) = reached t env d p good let_in h in
            elim (admit_cases t d.username env.id) [
              | inl failed ↦ absurd (ground arith)
              | inr (opened, stored) ↦
                  let who : newcomer t d.username ≡ p = ground arith in
                  (
                    d,
                    subst (λ (q : Peer). Shows q env d) who
                        (
                          typed,
                          good,
                          named,
                          subst
                              (λ (hash : List ℕ).
                                (length hash ≡ 0)
                                ⊎ (lib.compare_hash (some hash) (bytes_of d.server_password)
                                    ≡ true))
                              same knows,
                          refl,
                          refl,
                          refl,
                        ),
                    subst
                        (λ (q : Peer).
                          lookup id
                            (read_hello lib t env remote_ip id now advertised
                              token).0.hub.world.peers
                          ≡ some q)
                        who (rw e stored),
                  )
            ]
      ]
    ]

    read_rejected :
        (t : System) (env : Envelope) (code : ErrorCode)
        → (read_hello lib t env remote_ip id now advertised token).1 ≡ Opening.rejected code
        → (read_hello lib t env remote_ip id now advertised token).0 ≡ t
    unfolding read_hello
    read_rejected t env code h = elim (Option-cases (lib.unmarshal_hello env.data_bytes)) [
      | inl bad ↦ ground arith
      | inr (d, good) ↦ elim (Option-cases (refuse_hello lib t.hub env d)) [
        | inr (c, refused) ↦ ground arith
        | inl let_in ↦ ground (arith, admit_cases t d.username env.id)
      ]
    ]

    -- A session is opened only by a hello envelope whose data has a valid username and, if the
    -- server has a password, one that compares with its hash; its peer has the trimmed username,
    -- is in no room, and is stored under the new UUID.
    pub open_session_admits :
        (p : Peer)
        → outcome.1 ≡ Opening.opened p
        → (env : Envelope) × (d : HelloData) × (decode lib payload ≡ some env)
          × Shows p env d
          × (lookup id outcome.0.hub.world.peers ≡ some p)
    unfolding open_session
    open_session_admits p h = elim (Option-cases (decode lib payload)) [
      | inl bad ↦ absurd (ground arith)
      | inr (env, good) ↦
          let e : outcome ≡ read_hello lib limited env remote_ip id now advertised token =
            ground arith in
          let (d, shows, stored) =
            read_cases limited env p refl
              (subst (λ (x : System × Opening). x.1 ≡ Opening.opened p) e h) in
          (env, d, good, shows, rw e stored)
    ]

    -- A hello that is rejected with an error code changes neither the registry nor the UDP data
    -- plane.
    pub open_session_rejected :
        (code : ErrorCode)
        → outcome.1 ≡ Opening.rejected code
        → (outcome.0.hub.world ≡ s.hub.world) × (outcome.0.udp ≡ s.udp)
    unfolding open_session
    open_session_rejected code h = elim (Option-cases (decode lib payload)) [
      | inl bad ↦ ground arith
      | inr (env, good) ↦ ground (arith, read_rejected limited env code)
    ]
