-- ===== src/Startup/Validated.antt =====
-- The server that starts from validated settings.
use network_ultra_server.Prelude.{
  All, ℕ, ◌≡◌, ◌≢◌, ◌≤◌, ◌⊎◌, refl, inr, Bool, true, false, List, [], ◌∷◌, Option, none, some,
  ==_iff, arith, bytes_eq, string_eq, String, ap, inl, length, nat_eqb, Bool-cases, Option-cases,
}
use network_ultra_server.Strings.{Bytes, pos}
use network_ultra_server.Strings.Positions.{not_empty}
use network_ultra_server.Net.{Addr, Prefix}
use network_ultra_server.Ws.State.{Libraries, Hub, do_password_work}
use network_ultra_server.Ws.Session.{check_server_password}
use network_ultra_server.Ws.Labels.{bytes_of, max_peers_per_room}
use network_ultra_server.Config.{Config, Parsers, ok, parse_trusted_proxy}
use network_ultra_server.Config.Validate.{File, load}
use network_ultra_server.Config.Loaded.{load-IsUsable}
use network_ultra_server.Config.Usable.{Positive}
use network_ultra_server.Config.Proxies.{ParserLaws, Excludes, parse_trusted_proxy-Excludes}
use network_ultra_server.Startup.{
  Setup, exits, starts, trusted_prefixes, udp_plane, hash_server_password, setup, start,
}

length_filled : (h : Bytes) → h ≢ [] → nat_eqb (length h) 0 ≡ false
length_filled [] filled = absurd (filled refl)
length_filled (x ∷ h) filled = ground arith

-- A session of a server with this hash is opened only by a password that is there and compares with
-- the hash.
abbrev pub Asks : Bytes → Type 0
Asks h =
    (lib : Libraries) (hub : Hub) (password : String)
    → hub.server_password_hash ≡ h
    → check_server_password lib hub password ≡ none
    → (password ≢ "") × (lib.compare_hash (some h) (bytes_of password) ≡ true)

asks_lem : (h : Bytes) → h ≢ [] → Asks h
unfolding check_server_password do_password_work
asks_lem h filled lib hub password at good =
    let there : nat_eqb (length hub.server_password_hash) 0 ≡ false =
      rw at (length_filled h filled) in
    let given : password ≢ "" = ground (arith, ==_iff password "") in
    (
      given,
      elim (Bool-cases (lib.compare_hash (some h) (bytes_of password))) [
        | inl y ↦ y
        | inr n ↦
            absurd (ground (arith, at, ap (λ x. lib.compare_hash (some x) (bytes_of password)) at))
      ],
    )

-- What clients can rely on.
pub record IsGuarded (c : Config) (s : Setup) : Type 0 where
  pub connections : Positive s.max_connections
  pub rooms : Positive s.max_rooms
  pub peers : (n : ℕ) × (s.max_peers_per_room ≡ pos n) × (1 ≤ n) × (n ≤ max_peers_per_room)
  pub hello : Positive s.rate_limits.hello_per_ip_per_minute
  pub room_create : Positive s.rate_limits.room_create_per_peer_per_minute
  pub room_join : Positive s.rate_limits.room_join_per_peer_per_minute
  pub room_list : Positive s.rate_limits.room_list_per_peer_per_minute
  pub control : Positive s.rate_limits.control_per_peer_per_minute
  pub audio : Positive s.rate_limits.audio_frames_per_peer_per_sec
  pub password_checks : Positive s.rate_limits.password_checks_concurrent
  -- No entry trusts everybody.
  pub proxies : All (λ p. (a : Addr) × Excludes p a) s.trusted_proxy_prefixes
  -- A password that is set is asked for.
  pub password : c.server.password ≢ [] → (h : Bytes) × (s.server_password_hash ≡ some h) × Asks h
  -- UDP only if the settings accept that it is not encrypted.
  pub udp : (s.udp ≡ none) ⊎ (c.server.allow_insecure_udp ≡ true)

module _ (lib : Parsers) (laws : ParserLaws lib) (hash : Bytes → Option Bytes)
    (printed : (password h : Bytes) → hash password ≡ some h → h ≢ [])
    (listens : Bytes → Bool) where
  prefixes_of :
      (raws : List Bytes)
      → All (λ raw. (p : Prefix) × (parse_trusted_proxy lib raw ≡ ok p)) raws
      → (prefixes : List Prefix) × (trusted_prefixes lib raws ≡ some prefixes)
        × All (λ p. (a : Addr) × Excludes p a) prefixes
  unfolding trusted_prefixes
  prefixes_of [] all = ([], refl, tt)
  prefixes_of (raw ∷ rest) ((p, good), all) =
      let (prefixes, e, out) = prefixes_of rest all in
      (
        p ∷ prefixes,
        rw (trusted_prefixes, good, e) refl,
        (parse_trusted_proxy-Excludes lib laws raw p good, out),
      )

  hash_failed :
      (password : Bytes) → hash_server_password hash password ≡ none → hash password ≡ none
  unfolding hash_server_password
  hash_failed password e = ground arith

  password_lem :
      (password : Bytes) (h : Option Bytes)
      → hash_server_password hash password ≡ some h
      → password ≢ []
      → (bytes : Bytes) × (h ≡ some bytes) × Asks bytes
  unfolding hash_server_password
  password_lem password h e filled = elim (Option-cases (hash password)) [
    | inl bad ↦ absurd (ground (arith, not_empty password filled))
    | inr (bytes, good) ↦ (
      bytes,
      ground (arith, not_empty password filled),
      asks_lem bytes (printed password bytes good),
    )
  ]

  udp_lem :
      (c : Config)
      → (c.server.udp_listen ≡ []) ⊎ (c.server.allow_insecure_udp ≡ true)
      → (udp_plane listens c ≡ none) ⊎ (c.server.allow_insecure_udp ≡ true)
  unfolding udp_plane
  udp_lem c (inl off) = inl (ground (arith, ==_iff c.server.udp_listen []))
  udp_lem c (inr allowed) = inr allowed

  -- Where the parsers return addresses of 4 or 16 bytes and read 127.0.0.1, and bcrypt's hash is
  -- never empty: a server whose settings loaded without an error starts, unless its password
  -- cannot be hashed; then its limits on connections, rooms and peers and all seven of its rates
  -- are positive, no trusted prefix covers everybody, with a password set no hello passes the
  -- check but one whose password is not empty and compares with its hash, and UDP is on only if
  -- the settings accept that it is not encrypted.
  pub start_guards :
      (path : Bytes) (file : File) (c : Config)
      → lib.parse_ip (bytes_of "127.0.0.1") ≡ some (127 ∷ 0 ∷ 0 ∷ 1 ∷ [])
      → load lib path file ≡ (c, none)
      → ((start lib hash listens c ≡ exits 1) × (hash c.server.password ≡ none))
        ⊎ ((s : Setup) × (start lib hash listens c ≡ starts s) × IsGuarded c s)
  unfolding start
  start_guards path file c loopback loaded =
      let usable = load-IsUsable lib loopback path file c loaded in
      let (prefixes, read, out) = prefixes_of c.server.trusted_proxies usable.proxies in
      elim (Option-cases (hash_server_password hash c.server.password)) [
        | inl failed ↦ inl (rw (start, read, failed) refl, hash_failed c.server.password failed)
        | inr (h, hashed) ↦ inr (
          setup c prefixes h (udp_plane listens c),
          rw (start, read, hashed) refl,
          record {
            connections = usable.connections;
            rooms = usable.rooms;
            peers = usable.peers;
            hello = usable.hello;
            room_create = usable.room_create;
            room_join = usable.room_join;
            room_list = usable.room_list;
            control = usable.control;
            audio = usable.audio;
            password_checks = usable.password_checks;
            proxies = out;
            password = password_lem c.server.password h hashed;
            udp = udp_lem c usable.udp;
          },
        )
      ]
