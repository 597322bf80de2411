-- ===== src/Config/Validate.antt =====
-- validate and Load. `validate` changes the settings as it goes, so it returns them, with the error
-- that stopped it if there is one.
use network_ultra_server.Prelude.{
  Bool, false, not, ◌&&◌, ◌||◌, List, [], ◌∷◌, Option, none, some, ◌==◌, ltb, leb, if◌then◌else◌,
  length, bytes_eq,
}
use network_ultra_server.Strings.{Bytes, ℤ, pos, negsuc, is_positive}
use network_ultra_server.Room.Ops.{max_password_bytes}
use network_ultra_server.Ws.Labels.{bytes_of, max_peers_per_room}
use network_ultra_server.Config.{
  Config, default, default_rate_limit, Parsers, ProxyError, ok, err, parse_trusted_proxy,
  is_loopback_listen, health_url,
}

pub data ConfigError : Type 0 where
  listen_empty health_listen_not_loopback peers_per_room_range : ConfigError
  bad_trusted_proxy : Bytes → ProxyError → ConfigError
  password_too_long public_plaintext udp_unencrypted auto_letsencrypt cert_missing : ConfigError
  not_decoded : ConfigError

-- `if n <= 0 { n = standard }`
abbrev pub or_default : ℤ → ℤ → ℤ
or_default n standard = if is_positive n then n else standard

-- A check that returns, or what comes after it.
abbrev pub unless :
    Option ConfigError → Config → Config × Option ConfigError → Config × Option ConfigError
unless (some e) c rest = (c, some e)
unless none c rest = rest

unfoldable pub fill_max_rooms : Config → Config
fill_max_rooms c = record c {
  server = record c.server { max_rooms = or_default c.server.max_rooms (pos 50) };
}

unfoldable pub fill_max_connections : Config → Config
fill_max_connections c = record c {
  server = record c.server { max_connections = or_default c.server.max_connections (pos 200) };
}

abbrev pub known_level : Bytes → Bool
known_level level =
    level == bytes_of "debug"
    || (level == bytes_of "info" || (level == bytes_of "warn" || level == bytes_of "error"))

unfoldable pub fill_log_level : Config → Config
fill_log_level c = record c {
  log = record c.log { level = if known_level c.log.level then c.log.level else bytes_of "info" };
}

unfoldable pub fill_rate_limits : Config → Config
unfolding default_rate_limit
fill_rate_limits c =
    let r = c.rate_limit in
    let d = default_rate_limit in
    record c {
      rate_limit = record {
        hello_per_ip_per_minute = or_default r.hello_per_ip_per_minute d.hello_per_ip_per_minute;
        room_create_per_peer_per_minute =
            or_default r.room_create_per_peer_per_minute d.room_create_per_peer_per_minute;
        room_join_per_peer_per_minute =
            or_default r.room_join_per_peer_per_minute d.room_join_per_peer_per_minute;
        room_list_per_peer_per_minute =
            or_default r.room_list_per_peer_per_minute d.room_list_per_peer_per_minute;
        control_per_peer_per_minute =
            or_default r.control_per_peer_per_minute d.control_per_peer_per_minute;
        audio_frames_per_peer_per_sec =
            or_default r.audio_frames_per_peer_per_sec d.audio_frames_per_peer_per_sec;
        password_checks_concurrent =
            or_default r.password_checks_concurrent d.password_checks_concurrent;
      };
    }

unfoldable pub check_listen : Config → Option ConfigError
check_listen c = if c.server.listen == [] then some ConfigError.listen_empty else none

unfoldable pub in_peer_range : ℤ → Bool
in_peer_range (pos n) = leb 1 n && leb n max_peers_per_room
in_peer_range (negsuc n) = false

unfoldable pub check_peers : Config → Option ConfigError
check_peers c =
    if in_peer_range c.server.max_peers_per_room
    then none
    else some ConfigError.peers_per_room_range

unfoldable pub check_password_length : Config → Option ConfigError
check_password_length c =
    if ltb max_password_bytes (length c.server.password)
    then some ConfigError.password_too_long
    else none

unfoldable pub check_udp : Config → Option ConfigError
check_udp c =
    if not (c.server.udp_listen == []) && not c.server.allow_insecure_udp
    then some ConfigError.udp_unencrypted
    else none

unfoldable pub check_tls : Config → Option ConfigError
check_tls c =
    if c.tls.auto_letsencrypt
    then some ConfigError.auto_letsencrypt
    else if c.tls.enabled && (c.tls.cert_file == [] || c.tls.key_file == [])
    then some ConfigError.cert_missing
    else none

-- What there is at the path, and what the TOML library made of it over the defaults, until it failed
-- or to its end.
pub data File : Type 0 where
  missing : File
  undecodable decoded : Config → File

module _ (lib : Parsers) where
  unfoldable pub check_health : Config → Option ConfigError
  check_health c = elim (health_url lib c.server.health_listen) [
    | none ↦ some ConfigError.health_listen_not_loopback
    | some _ ↦ none
  ]

  -- The loop over the trusted proxies.
  unfoldable pub first_bad_proxy : List Bytes → Option ConfigError
  first_bad_proxy [] = none
  first_bad_proxy (raw ∷ rest) = elim (parse_trusted_proxy lib raw) [
    | err e ↦ some (ConfigError.bad_trusted_proxy raw e)
    | ok _ ↦ first_bad_proxy rest
  ]

  unfoldable pub check_plaintext : Config → Option ConfigError
  check_plaintext c =
      if not c.tls.enabled
        && (not c.server.allow_insecure_public && not (is_loopback_listen lib c.server.listen))
      then some ConfigError.public_plaintext
      else none

  unfoldable pub validate : Config → Config × Option ConfigError
  validate c = unless (check_listen c) c (
      unless (check_health c) c (
        let c1 = fill_max_rooms c in
        unless (check_peers c1) c1 (
          let c2 = fill_max_connections c1 in
          unless (first_bad_proxy c2.server.trusted_proxies) c2 (
            unless (check_password_length c2) c2 (
              unless (check_plaintext c2) c2 (
                unless (check_udp c2) c2 (
                  let c3 = fill_log_level c2 in
                  unless (check_tls c3) c3 (fill_rate_limits c3, none))))))))

  unfoldable pub load : Bytes → File → Config × Option ConfigError
  load path file = if path == [] then (default, none) else (elim file [
    | missing ↦ (default, none)
    | undecodable c ↦ (c, some ConfigError.not_decoded)
    | decoded c ↦ validate c
  ])
