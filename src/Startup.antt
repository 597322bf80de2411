-- ===== src/Startup.antt =====
-- cmd/server/main.go: what `run` makes of the settings before it listens. bcrypt's hash and the
-- opening of the UDP socket are parameters.
pub mod Validated
mod Tests
use network_ultra_server.Prelude.{
  ℕ, Bool, true, false, not, ◌&&◌, List, [], ◌∷◌, Option, none, some, ◌==◌, if◌then◌else◌, bytes_eq,
}
use network_ultra_server.Strings.{Bytes, ℤ, pos, negsuc, is_positive, atoi, itoa}
use network_ultra_server.Net.{Prefix, split_host_port, join_host_port}
use network_ultra_server.Config.{Config, RateLimitCfg, Parsers, ok, err, parse_trusted_proxy}

-- The data plane as run sets it up: its port, and the endpoint if one is configured.
pub record UdpPlane : Type 0 where
  pub port : ℤ
  pub endpoint : Bytes

-- ws.RateLimits, whose fields are of Go's int here as there.
pub record ServerRates : Type 0 where
  pub hello_per_ip_per_minute : ℤ
  pub room_create_per_peer_per_minute : ℤ
  pub room_join_per_peer_per_minute : ℤ
  pub room_list_per_peer_per_minute : ℤ
  pub control_per_peer_per_minute : ℤ
  pub audio_frames_per_peer_per_sec : ℤ
  pub password_checks_concurrent : ℤ

-- The fields of ws.Server and of the registry that come from the settings.
pub record Setup : Type 0 where
  pub max_rooms : ℤ
  pub max_peers_per_room : ℤ
  pub max_connections : ℤ
  pub rate_limits : ServerRates
  pub trusted_proxy_prefixes : List Prefix
  pub server_password_hash : Option Bytes
  pub udp : Option UdpPlane

pub data Start : Type 0 where
  exits : ℕ → Start
  starts : Setup → Start

-- udpPortFromListen
unfoldable pub udp_port_from_listen : Bytes → ℤ
udp_port_from_listen listen = elim (split_host_port listen) [
  | none ↦ pos 0
  | some (_, port) ↦ elim (atoi port) [ none ↦ pos 0 | some n ↦ n ]
]

unfoldable pub endpoint_of : Bytes → ℤ → Bytes
endpoint_of host (negsuc _) = []
endpoint_of host (pos port) =
    if not (host == []) && is_positive (pos port) then join_host_port host (itoa port) else []

-- The loop over the trusted proxies.
unfoldable pub trusted_prefixes : Parsers → List Bytes → Option (List Prefix)
trusted_prefixes lib [] = some []
trusted_prefixes lib (raw ∷ rest) = elim (parse_trusted_proxy lib raw) [
  | err _ ↦ none
  | ok prefix ↦ elim (trusted_prefixes lib rest) [
    | none ↦ none
    | some prefixes ↦ some (prefix ∷ prefixes)
  ]
]

-- `listens` is whether the socket can be opened.
unfoldable pub udp_plane : (Bytes → Bool) → Config → Option UdpPlane
udp_plane listens c =
    if c.server.udp_listen == []
    then none
    else if not (listens c.server.udp_listen)
    then none
    else (let port = udp_port_from_listen c.server.udp_listen in
        some (record { port = port; endpoint = endpoint_of c.server.udp_advertise_host port }))

-- `none` if bcrypt fails.
unfoldable pub hash_server_password : (Bytes → Option Bytes) → Bytes → Option (Option Bytes)
hash_server_password hash password =
    if password == []
    then some none
    else (elim (hash password) [ none ↦ none | some h ↦ some (some h) ])

abbrev pub server_rates : RateLimitCfg → ServerRates
server_rates r = record {
  hello_per_ip_per_minute = r.hello_per_ip_per_minute;
  room_create_per_peer_per_minute = r.room_create_per_peer_per_minute;
  room_join_per_peer_per_minute = r.room_join_per_peer_per_minute;
  room_list_per_peer_per_minute = r.room_list_per_peer_per_minute;
  control_per_peer_per_minute = r.control_per_peer_per_minute;
  audio_frames_per_peer_per_sec = r.audio_frames_per_peer_per_sec;
  password_checks_concurrent = r.password_checks_concurrent;
}

abbrev pub setup : Config → List Prefix → Option Bytes → Option UdpPlane → Setup
setup c prefixes h udp = record {
  max_rooms = c.server.max_rooms;
  max_peers_per_room = c.server.max_peers_per_room;
  max_connections = c.server.max_connections;
  rate_limits = server_rates c.rate_limit;
  trusted_proxy_prefixes = prefixes;
  server_password_hash = h;
  udp = udp;
}

unfoldable pub start : Parsers → (Bytes → Option Bytes) → (Bytes → Bool) → Config → Start
start lib hash listens c = elim (trusted_prefixes lib c.server.trusted_proxies) [
  | none ↦ exits 2
  | some prefixes ↦ elim (hash_server_password hash c.server.password) [
    | none ↦ exits 1
    | some h ↦ starts (setup c prefixes h (udp_plane listens c))
  ]
]
