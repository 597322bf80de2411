-- ===== src/Config/Tests.antt =====
-- Settings at concrete values.
use network_ultra_server.Prelude.{
  ◌≡◌, refl, subst, arith, Bool-cases, inl, inr, [], ◌∷◌, none, some, ◌==◌, if◌then◌else◌, bytes_eq,
}
use network_ultra_server.Strings.{
  Bytes, pos, negsuc, trim_space, drop_spaces, space_width, space_width_back, ascii_space, space2,
  space3, trim_brackets, drop_brackets, last_index_byte, index_byte, contains_byte, digits, atoi,
  unsigned, equal_fold, lower,
}
use network_ultra_server.Net.{
  Addr, Prefix, split_host_port, split_at, is_loopback, short_ip, mapped_v4, unmap,
}
use network_ultra_server.Ws.Labels.{bytes_of}
use network_ultra_server.Config.{
  Config, default, Parsers, ok, parse_trusted_proxy, health_url, is_loopback_listen, is_unspecified,
  is_multicast,
}
use network_ultra_server.Config.Validate.{
  decoded, load, validate, check_listen, check_health, check_peers, check_password_length,
  check_plaintext, check_udp, check_tls, first_bad_proxy, in_peer_range, fill_max_rooms,
  fill_max_connections, fill_log_level, fill_rate_limits,
}
use network_ultra_server.Config.Usable.{IsUsable}
use network_ultra_server.Config.Loaded.{load-IsUsable}
use network_ultra_server.Config.Proxies.{IsAddr, ParserLaws, Excludes, parse_trusted_proxy-Excludes}

abbrev pub parsers : Parsers
parsers = record {
  parse_ip = λ text. if text == bytes_of "127.0.0.1" then some (127 ∷ 0 ∷ 0 ∷ 1 ∷ []) else none;
  ip_text = λ ip. bytes_of "127.0.0.1";
  parse_addr = λ text.
      if text == bytes_of "10.0.0.1"
      then some (record { ip = 10 ∷ 0 ∷ 0 ∷ 1 ∷ []; zone = [] })
      else none;
  parse_prefix = λ text. none;
}

abbrev pub settings : Config
settings = record default {
  server = record default.server {
    max_rooms = negsuc 3;
    trusted_proxies = bytes_of "10.0.0.1" ∷ [];
    password = bytes_of "secret";
  };
}

abbrev pub filled : Config
filled = record settings { server = record settings.server { max_rooms = pos 50 } }

pub valid : validate parsers settings ≡ (filled, none)
unfolding validate check_listen check_health check_peers check_password_length check_plaintext
    check_udp check_tls first_bad_proxy in_peer_range fill_max_rooms fill_max_connections
    fill_log_level fill_rate_limits default bytes_of health_url is_loopback_listen split_host_port
    split_at last_index_byte index_byte contains_byte trim_brackets drop_brackets is_loopback
    short_ip atoi unsigned digits parse_trusted_proxy trim_space drop_spaces space_width
    space_width_back ascii_space space2 space3 mapped_v4 unmap is_unspecified is_multicast
    equal_fold lower
valid = refl

abbrev pub toml_path : Bytes
toml_path = bytes_of "config.toml"

pub read : parsers.parse_ip (bytes_of "127.0.0.1") ≡ some (127 ∷ 0 ∷ 0 ∷ 1 ∷ [])
unfolding bytes_of
read = refl

pub loaded : load parsers toml_path (decoded settings) ≡ (filled, none)
unfolding load bytes_of
loaded = valid

load-IsUsable_example : IsUsable parsers filled
load-IsUsable_example = load-IsUsable parsers read toml_path (decoded settings) filled loaded

pub proxy_addr : (text : Bytes) (a : Addr) → parsers.parse_addr text ≡ some a → IsAddr a
proxy_addr text a h = elim (Bool-cases (text == bytes_of "10.0.0.1")) [
  | inl y ↦
      subst IsAddr {x = record { ip = 10 ∷ 0 ∷ 0 ∷ 1 ∷ []; zone = [] }} {y = a} (ground arith)
        (inl refl, (omega arith, (omega arith, (omega arith, (omega arith, tt)))))
  | inr n ↦ absurd (ground arith)
]

abbrev pub laws : ParserLaws parsers
laws = record { addr_formed = proxy_addr; prefix_formed = λ text p h. absurd (ground arith) }

abbrev trusted : Prefix
trusted = record { addr = record { ip = 10 ∷ 0 ∷ 0 ∷ 1 ∷ []; zone = [] }; bits = 32 }

parsed : parse_trusted_proxy parsers (bytes_of "10.0.0.1") ≡ ok trusted
unfolding bytes_of parse_trusted_proxy trim_space drop_spaces space_width space_width_back
    ascii_space space2 space3 mapped_v4 unmap is_unspecified is_multicast
parsed = refl

parse_trusted_proxy-Excludes_example : (a : Addr) × Excludes trusted a
parse_trusted_proxy-Excludes_example =
    parse_trusted_proxy-Excludes parsers laws (bytes_of "10.0.0.1") trusted parsed
