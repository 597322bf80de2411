-- ===== src/Config/Usable.antt =====
-- What validated settings are good for.
use network_ultra_server.Prelude.{
  All, ℕ, zero, suc, ◌≡◌, ◌≢◌, ◌≤◌, ◌⊎◌, refl, ap, ◌∙◌, subst, inl, inr, true, false, List, [], ◌∷◌,
  Option, none, some, ==_iff, if◌then◌else◌, length, bytes_eq, arith, Bool-cases, Option-cases,
}
use network_ultra_server.Net.{Prefix}
use network_ultra_server.Strings.{Bytes, ℤ, pos, negsuc}
use network_ultra_server.Room.Ops.{max_password_bytes}
use network_ultra_server.Ws.Labels.{bytes_of, max_peers_per_room}
use network_ultra_server.Config.{
  Config, Parsers, Result-cases, ok, parse_trusted_proxy, is_loopback_listen, health_url,
}
use network_ultra_server.Config.Validate.{
  ConfigError, or_default, unless, fill_max_rooms, fill_max_connections, known_level,
  fill_log_level, fill_rate_limits, check_listen, in_peer_range, check_peers, check_password_length,
  check_udp, check_tls, check_health, first_bad_proxy, check_plaintext, validate,
}

abbrev pub Positive : ℤ → Type 0
Positive n = (k : ℕ) × (n ≡ pos (suc k))

-- What the rest of the server relies on.
pub record IsUsable (lib : Parsers) (c : Config) : Type 0 where
  pub listens : c.server.listen ≢ []
  pub health : (url : Bytes) × (health_url lib c.server.health_listen ≡ some url)
  pub rooms : Positive c.server.max_rooms
  pub peers : (n : ℕ) × (c.server.max_peers_per_room ≡ pos n) × (1 ≤ n) × (n ≤ max_peers_per_room)
  pub connections : Positive c.server.max_connections
  pub proxies :
      All (λ raw. (p : Prefix) × (parse_trusted_proxy lib raw ≡ ok p)) c.server.trusted_proxies
  pub password : length c.server.password ≤ max_password_bytes
  pub websocket :
      (c.tls.enabled ≡ true)
      ⊎ ((c.server.allow_insecure_public ≡ true) ⊎ (is_loopback_listen lib c.server.listen ≡ true))
  pub udp : (c.server.udp_listen ≡ []) ⊎ (c.server.allow_insecure_udp ≡ true)
  pub level : known_level c.log.level ≡ true
  pub no_letsencrypt : c.tls.auto_letsencrypt ≡ false
  pub certificate : (c.tls.enabled ≡ false) ⊎ ((c.tls.cert_file ≢ []) × (c.tls.key_file ≢ []))
  pub hello : Positive c.rate_limit.hello_per_ip_per_minute
  pub room_create : Positive c.rate_limit.room_create_per_peer_per_minute
  pub room_join : Positive c.rate_limit.room_join_per_peer_per_minute
  pub room_list : Positive c.rate_limit.room_list_per_peer_per_minute
  pub control : Positive c.rate_limit.control_per_peer_per_minute
  pub audio : Positive c.rate_limit.audio_frames_per_peer_per_sec
  pub password_checks : Positive c.rate_limit.password_checks_concurrent

or_default-Positive : (n : ℤ) (k : ℕ) → Positive (or_default n (pos (suc k)))
or_default-Positive (pos zero) k = (k, refl)
or_default-Positive (pos (suc n)) k = (n, ground arith)
or_default-Positive (negsuc n) k = (k, refl)

pub or_default_keeps : (n standard : ℤ) → Positive n → or_default n standard ≡ n
or_default_keeps n standard (k, e) = ground arith

unless-none :
    (e : Option ConfigError) (c c' : Config) (rest : Config × Option ConfigError)
    → unless e c rest ≡ (c', none)
    → (e ≡ none) × (rest ≡ (c', none))
unless-none none c c' rest h = (refl, h)
unless-none (some e) c c' rest h = absurd (ground arith)

module _ (lib : Parsers) where
  proxies_of :
      (raws : List Bytes)
      → first_bad_proxy lib raws ≡ none
      → All (λ raw. (p : Prefix) × (parse_trusted_proxy lib raw ≡ ok p)) raws
  unfolding first_bad_proxy
  proxies_of [] h = tt
  proxies_of (raw ∷ rest) h = elim (Result-cases (parse_trusted_proxy lib raw)) [
    | inl (e, bad) ↦ absurd (ground arith)
    | inr (p, good) ↦ ((p, good), proxies_of rest (ground arith))
  ]

  pub no_bad_proxy :
      (raws : List Bytes)
      → All (λ raw. (p : Prefix) × (parse_trusted_proxy lib raw ≡ ok p)) raws
      → first_bad_proxy lib raws ≡ none
  unfolding first_bad_proxy
  no_bad_proxy [] all = refl
  no_bad_proxy (raw ∷ rest) ((p, e), all) = rw (first_bad_proxy, e) (no_bad_proxy rest all)

  listen_lem : (c : Config) → check_listen c ≡ none → c.server.listen ≢ []
  unfolding check_listen
  listen_lem c h e = ground (arith, ==_iff c.server.listen [])

  health_lem :
      (c : Config)
      → check_health lib c ≡ none
      → (url : Bytes) × (health_url lib c.server.health_listen ≡ some url)
  unfolding check_health
  health_lem c h = elim (Option-cases (health_url lib c.server.health_listen)) [
    | inl bad ↦ absurd (ground arith)
    | inr found ↦ found
  ]

  range_lem :
      (n : ℤ) → in_peer_range n ≡ true → (k : ℕ) × (n ≡ pos k) × (1 ≤ k) × (k ≤ max_peers_per_room)
  unfolding in_peer_range
  range_lem (pos k) h = (k, refl, ground arith, ground arith)
  range_lem (negsuc k) h = absurd (ground arith)

  peers_lem : (c : Config) → check_peers c ≡ none → in_peer_range c.server.max_peers_per_room ≡ true
  unfolding check_peers
  peers_lem c h = ground arith

  password_lem :
      (c : Config) → check_password_length c ≡ none → length c.server.password ≤ max_password_bytes
  unfolding check_password_length
  password_lem c h = ground arith

  plaintext_lem :
      (c : Config)
      → check_plaintext lib c ≡ none
      → (c.tls.enabled ≡ true)
        ⊎ ((c.server.allow_insecure_public ≡ true)
            ⊎ (is_loopback_listen lib c.server.listen ≡ true))
  unfolding check_plaintext
  plaintext_lem c h = ground arith

  udp_lem :
      (c : Config)
      → check_udp c ≡ none
      → (c.server.udp_listen ≡ []) ⊎ (c.server.allow_insecure_udp ≡ true)
  unfolding check_udp
  udp_lem c h = ground (arith, ==_iff c.server.udp_listen [])

  tls_lem :
      (c : Config)
      → check_tls c ≡ none
      → (c.tls.auto_letsencrypt ≡ false)
        × ((c.tls.enabled ≡ false) ⊎ ((c.tls.cert_file ≢ []) × (c.tls.key_file ≢ [])))
  unfolding check_tls
  tls_lem c h = (
    ground arith,
    elim (Bool-cases c.tls.enabled) [
      | inr off ↦ inl off
      | inl on ↦ inr (
        λ e. ground (arith, ==_iff c.tls.cert_file []),
        λ e. ground (arith, ==_iff c.tls.key_file []),
      )
    ],
  )

  info_known : known_level (bytes_of "info") ≡ true
  unfolding bytes_of
  info_known = refl

  known_level_lem :
      (level : Bytes) → known_level (if known_level level then level else bytes_of "info") ≡ true
  known_level_lem level = elim (Bool-cases (known_level level)) [
    | inl y ↦ ground arith
    | inr n ↦ ap known_level (ap (λ b. if b then level else bytes_of "info") n) ∙ info_known
  ]

  -- x
  pub validate-IsUsable : (c c' : Config) → validate lib c ≡ (c', none) → IsUsable lib c'
  unfolding validate fill_max_rooms fill_max_connections fill_log_level fill_rate_limits
  validate-IsUsable c c' h =
      let (listens, h1) = unless-none _ _ c' _ h in
      let (health, h2) = unless-none _ _ c' _ h1 in
      let (peers, h3) = unless-none _ _ c' _ h2 in
      let (proxies, h4) = unless-none _ _ c' _ h3 in
      let (password, h5) = unless-none _ _ c' _ h4 in
      let (plaintext, h6) = unless-none _ _ c' _ h5 in
      let (udp, h7) = unless-none _ _ c' _ h6 in
      let (tls, h8) = unless-none _ _ c' _ h7 in
      subst (IsUsable lib) (ap (λ (r : Config × Option ConfigError). r.0) h8) (record {
        listens = listen_lem c listens;
        health = health_lem c health;
        rooms = or_default-Positive c.server.max_rooms 49;
        peers = range_lem c.server.max_peers_per_room (peers_lem _ peers);
        connections = or_default-Positive c.server.max_connections 199;
        proxies = proxies_of c.server.trusted_proxies proxies;
        password = password_lem _ password;
        websocket = plaintext_lem _ plaintext;
        udp = udp_lem _ udp;
        level = known_level_lem c.log.level;
        no_letsencrypt = (tls_lem _ tls).0;
        certificate = (tls_lem _ tls).1;
        hello = or_default-Positive c.rate_limit.hello_per_ip_per_minute 9;
        room_create = or_default-Positive c.rate_limit.room_create_per_peer_per_minute 4;
        room_join = or_default-Positive c.rate_limit.room_join_per_peer_per_minute 29;
        room_list = or_default-Positive c.rate_limit.room_list_per_peer_per_minute 59;
        control = or_default-Positive c.rate_limit.control_per_peer_per_minute 119;
        audio = or_default-Positive c.rate_limit.audio_frames_per_peer_per_sec 199;
        password_checks = or_default-Positive c.rate_limit.password_checks_concurrent 3;
      })
