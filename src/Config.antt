-- ===== src/Config.antt =====
-- internal/config/config.go: the settings, their defaults and their validation. Texts are lists of
-- bytes; net.ParseIP, netip.ParseAddr and netip.ParsePrefix are parameters, and so is what the TOML
-- library makes of the file.
pub mod Validate
pub mod Proxies
pub mod Usable
pub mod Settled
pub mod Loaded
pub mod Tests
use network_ultra_server.Prelude.{
  ◌≡◌, ◌⊎◌, inl, inr, refl, ℕ, zero, suc, ◌+◌, ◌-◌, ◌*◌, ◌/◌, ◌^◌, Bool, true, false, not, ◌&&◌,
  ◌||◌, List, [], ◌∷◌, ◌++◌, Option, none, some, ◌==◌, ltb, leb, nat_eqb, if◌then◌else◌, length,
  take, get_or, replicate, bytes_eq,
}
use network_ultra_server.Strings.{
  Bytes, trim_space, trim_brackets, equal_fold, ℤ, pos, negsuc, is_positive, atoi, itoa,
}
use network_ultra_server.Net.{
  Addr, Prefix, unmap, is_loopback, split_host_port, mapped_v4, join_host_port,
}
use network_ultra_server.Room.Ops.{max_password_bytes}
use network_ultra_server.Ws.Labels.{bytes_of, max_peers_per_room}

pub record ServerCfg : Type 0 where
  pub listen : Bytes
  pub health_listen : Bytes
  pub udp_listen : Bytes
  pub udp_advertise_host : Bytes
  pub max_rooms : ℤ
  pub max_peers_per_room : ℤ
  pub max_connections : ℤ
  pub admin_token : Bytes
  pub trusted_proxies : List Bytes
  pub allow_insecure_public : Bool
  pub allow_insecure_udp : Bool
  pub password : Bytes

pub record TlsCfg : Type 0 where
  pub enabled : Bool
  pub cert_file : Bytes
  pub key_file : Bytes
  pub auto_letsencrypt : Bool
  pub domain : Bytes
  pub email : Bytes

pub record LogCfg : Type 0 where
  pub level : Bytes
  pub format : Bytes
  pub path : Bytes

pub record RateLimitCfg : Type 0 where
  pub hello_per_ip_per_minute : ℤ
  pub room_create_per_peer_per_minute : ℤ
  pub room_join_per_peer_per_minute : ℤ
  pub room_list_per_peer_per_minute : ℤ
  pub control_per_peer_per_minute : ℤ
  pub audio_frames_per_peer_per_sec : ℤ
  pub password_checks_concurrent : ℤ

pub record Config : Type 0 where
  pub server : ServerCfg
  pub tls : TlsCfg
  pub log : LogCfg
  pub rate_limit : RateLimitCfg

abbrev default_rate_limit : RateLimitCfg
default_rate_limit = record {
  hello_per_ip_per_minute = pos 10;
  room_create_per_peer_per_minute = pos 5;
  room_join_per_peer_per_minute = pos 30;
  room_list_per_peer_per_minute = pos 60;
  control_per_peer_per_minute = pos 120;
  audio_frames_per_peer_per_sec = pos 200;
  password_checks_concurrent = pos 4;
}

unfoldable pub default : Config
default = record {
  server = record {
    listen = bytes_of "127.0.0.1:18900";
    health_listen = bytes_of "127.0.0.1:18901";
    udp_listen = [];
    udp_advertise_host = [];
    max_rooms = pos 50;
    max_peers_per_room = pos 8;
    max_connections = pos 200;
    admin_token = [];
    trusted_proxies = [];
    allow_insecure_public = false;
    allow_insecure_udp = false;
    password = [];
  };
  tls = record {
    enabled = false;
    cert_file = [];
    key_file = [];
    auto_letsencrypt = false;
    domain = [];
    email = [];
  };
  log = record { level = bytes_of "info"; format = bytes_of "json"; path = [] };
  rate_limit = default_rate_limit;
}

-- net.ParseIP and IP.String, netip.ParseAddr, netip.ParsePrefix.
pub record Parsers : Type 0 where
  pub parse_ip : Bytes → Option (List ℕ)
  pub ip_text : List ℕ → Bytes
  pub parse_addr : Bytes → Option Addr
  pub parse_prefix : Bytes → Option Prefix

pub data ProxyError : Type 0 where
  empty_address ambiguous_address not_an_address forbidden_prefix : ProxyError

pub data Result {ℓ} (E A : Type ℓ) : Type ℓ where
  ok : A → Result E A
  err : E → Result E A

pub Result-cases {ℓ} :
    {E A : Type ℓ} (r : Result E A) → ((e : E) × (r ≡ err e)) ⊎ ((a : A) × (r ≡ ok a))
Result-cases (ok a) = inr (a, refl)
Result-cases (err e) = inl (e, refl)

unfoldable pub is_unspecified : Addr → Bool
is_unspecified a = a.ip == replicate 4 0 || a.ip == replicate 16 0

-- addr.IsMulticast(), of an address that is not an IPv4 one in IPv6 form.
unfoldable pub is_multicast : Addr → Bool
is_multicast a =
    if nat_eqb (length a.ip) 4
    then leb 224 (get_or a.ip 0 0) && ltb (get_or a.ip 0 0) 240
    else nat_eqb (get_or a.ip 0 0) 255

-- The bytes of an address with all bits behind the first ones cleared.
unfoldable pub mask : ℕ → List ℕ → List ℕ
mask bits [] = []
mask bits (x ∷ xs) =
    if ltb bits 8
    then (x / (2 ^ (8 - bits))) * (2 ^ (8 - bits)) ∷ mask 0 xs
    else x ∷ mask (bits - 8) xs

-- prefix.Masked()
unfoldable pub masked : Prefix → Prefix
masked p = record p { addr = record p.addr { ip = mask p.bits p.addr.ip } }

module _ (lib : Parsers) where
  unfoldable pub parse_trusted_proxy : Bytes → Result ProxyError Prefix
  parse_trusted_proxy text =
      let raw = trim_space text in
      if raw == [] then err ProxyError.empty_address else (elim (lib.parse_addr raw) [
        | some addr ↦
            if not (addr.zone == [])
              || (mapped_v4 addr || (is_unspecified addr || is_multicast addr))
            then err ProxyError.ambiguous_address
            else ok (record { addr = unmap addr; bits = 8 * length (unmap addr).ip })
        | none ↦ elim (lib.parse_prefix raw) [
          | none ↦ err ProxyError.not_an_address
          | some p ↦
              if nat_eqb p.bits 0 || (mapped_v4 p.addr || is_multicast p.addr)
              then err ProxyError.forbidden_prefix
              else ok (masked p)
        ]
      ])

  unfoldable pub is_loopback_listen : Bytes → Bool
  is_loopback_listen listen = elim (split_host_port listen) [
    | none ↦ false
    | some (host, _) ↦
        if equal_fold (trim_brackets host) (bytes_of "localhost")
        then true
        else (elim (lib.parse_ip (trim_brackets host)) [ none ↦ false | some ip ↦ is_loopback ip ])
  ]

  -- HealthURL, with none for its errors.
  unfoldable pub health_url : Bytes → Option Bytes
  health_url listen = elim (split_host_port listen) [
    | none ↦ none
    | some (host, port) ↦ elim (lib.parse_ip (trim_brackets host)) [
      | none ↦ none
      | some ip ↦ if not (is_loopback ip) then none else (elim (atoi port) [
        | none ↦ none
        | some (negsuc _) ↦ none
        | some (pos n) ↦
            if ltb n 1 || ltb 65535 n
            then none
            else some (
                bytes_of "http://"
                ++ (join_host_port (lib.ip_text ip) (itoa n) ++ bytes_of "/healthz"))
      ])
    ]
  ]
