-- ===== src/Config/Settled.antt =====
-- Validating validated settings.
use network_ultra_server.Prelude.{
  ◌≡◌, refl, ap, inl, inr, [], none, ◌==◌, ==_iff, if◌then◌else◌, bytes_eq, arith, Bool-cases,
}
use network_ultra_server.Strings.{pos}
use network_ultra_server.Ws.Labels.{bytes_of}
use network_ultra_server.Config.{Config, Parsers}
use network_ultra_server.Config.Validate.{
  fill_max_rooms, fill_max_connections, fill_log_level, fill_rate_limits, check_listen,
  in_peer_range, check_peers, check_password_length, check_udp, check_tls, check_health,
  check_plaintext, validate,
}
use network_ultra_server.Config.Usable.{IsUsable, or_default_keeps, no_bad_proxy}

module _ (lib : Parsers) (c : Config) (ok : IsUsable lib c) where
  fill_max_rooms_lem : fill_max_rooms c ≡ c
  unfolding fill_max_rooms
  fill_max_rooms_lem =
      ap (λ n. record c { server = record c.server { max_rooms = n } })
        (or_default_keeps c.server.max_rooms (pos 50) ok.rooms)

  fill_max_connections_lem : fill_max_connections c ≡ c
  unfolding fill_max_connections
  fill_max_connections_lem =
      ap (λ n. record c { server = record c.server { max_connections = n } })
        (or_default_keeps c.server.max_connections (pos 200) ok.connections)

  fill_log_level_lem : fill_log_level c ≡ c
  unfolding fill_log_level
  fill_log_level_lem =
      ap
        (λ b. record c {
          log = record c.log { level = if b then c.log.level else bytes_of "info" };
        })
        ok.level

  fill_rate_limits_lem : fill_rate_limits c ≡ c
  unfolding fill_rate_limits
  fill_rate_limits_lem =
      rw
        (
          fill_rate_limits,
          or_default_keeps c.rate_limit.hello_per_ip_per_minute (pos 10) ok.hello,
          or_default_keeps c.rate_limit.room_create_per_peer_per_minute (pos 5) ok.room_create,
          or_default_keeps c.rate_limit.room_join_per_peer_per_minute (pos 30) ok.room_join,
          or_default_keeps c.rate_limit.room_list_per_peer_per_minute (pos 60) ok.room_list,
          or_default_keeps c.rate_limit.control_per_peer_per_minute (pos 120) ok.control,
          or_default_keeps c.rate_limit.audio_frames_per_peer_per_sec (pos 200) ok.audio,
          or_default_keeps c.rate_limit.password_checks_concurrent (pos 4) ok.password_checks,
        )
        refl

  passes_listen : check_listen c ≡ none
  unfolding check_listen
  passes_listen = elim (Bool-cases (c.server.listen == [])) [
    | inl y ↦ absurd (ok.listens ((==_iff c.server.listen []).0 y))
    | inr n ↦ ground arith
  ]

  passes_health : check_health lib c ≡ none
  unfolding check_health
  passes_health = let (url, e) = ok.health in ground arith

  passes_peers : check_peers c ≡ none
  unfolding check_peers in_peer_range
  passes_peers = let (n, e, low, high) = ok.peers in ground arith

  passes_password : check_password_length c ≡ none
  unfolding check_password_length
  passes_password = let small = ok.password in ground arith

  passes_plaintext : check_plaintext lib c ≡ none
  unfolding check_plaintext
  passes_plaintext = let safe = ok.websocket in ground arith

  passes_udp : check_udp c ≡ none
  unfolding check_udp
  passes_udp = elim ok.udp [
    | inl off ↦ ground (arith, ==_iff c.server.udp_listen [])
    | inr allowed ↦ ground arith
  ]

  passes_tls : check_tls c ≡ none
  unfolding check_tls
  passes_tls =
      let auto = ok.no_letsencrypt in
      elim ok.certificate [
        | inl off ↦ ground arith
        | inr (cert, key) ↦ elim (Bool-cases (c.tls.cert_file == [])) [
          | inl y ↦ absurd (cert ((==_iff c.tls.cert_file []).0 y))
          | inr n ↦ elim (Bool-cases (c.tls.key_file == [])) [
            | inl y ↦ absurd (key ((==_iff c.tls.key_file []).0 y))
            | inr m ↦ ground arith
          ]
        ]
      ]

  -- Usable settings pass the validation as they are, so validating twice is validating once.
  pub validate_keeps : validate lib c ≡ (c, none)
  unfolding validate
  validate_keeps =
      rw
        (
          validate,
          passes_listen,
          passes_health,
          fill_max_rooms_lem,
          passes_peers,
          fill_max_connections_lem,
          no_bad_proxy lib c.server.trusted_proxies ok.proxies,
          passes_password,
          passes_plaintext,
          passes_udp,
          fill_log_level_lem,
          passes_tls,
          fill_rate_limits_lem,
        )
        refl
