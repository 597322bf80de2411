-- ===== src/Config/Loaded.antt =====
-- The settings that Load returns.
use network_ultra_server.Prelude.{
  ◌≡◌, refl, subst, inl, inr, [], ◌∷◌, ◌++◌, none, some, arith, ◌==◌, Bool-cases, bytes_eq, true,
}
use network_ultra_server.Strings.{
  Bytes, equal_fold, lower, trim_brackets, drop_brackets, index_byte, last_index_byte,
  contains_byte, atoi, unsigned, digits, has_prefix, itoa,
}
use network_ultra_server.Net.{split_host_port, split_at, is_loopback, short_ip, join_host_port}
use network_ultra_server.Ws.Labels.{bytes_of}
use network_ultra_server.Config.{Config, default, Parsers, health_url, is_loopback_listen}
use network_ultra_server.Config.Validate.{File, missing, undecodable, decoded, load}
use network_ultra_server.Config.Usable.{IsUsable, validate-IsUsable}

module _ (lib : Parsers)
    (loopback : lib.parse_ip (bytes_of "127.0.0.1") ≡ some (127 ∷ 0 ∷ 0 ∷ 1 ∷ [])) where
  default_health : (url : Bytes) × (health_url lib (bytes_of "127.0.0.1:18901") ≡ some url)
  unfolding health_url split_host_port last_index_byte index_byte contains_byte split_at
      trim_brackets drop_brackets bytes_of is_loopback short_ip atoi unsigned digits
  default_health = (
    bytes_of "http://"
        ++ (join_host_port (lib.ip_text (127 ∷ 0 ∷ 0 ∷ 1 ∷ [])) (itoa 18901)
            ++ bytes_of "/healthz"),
    rw (health_url, loopback) refl,
  )

  default_loopback : is_loopback_listen lib (bytes_of "127.0.0.1:18900") ≡ true
  unfolding is_loopback_listen split_host_port last_index_byte index_byte contains_byte split_at
      trim_brackets drop_brackets bytes_of is_loopback short_ip equal_fold lower has_prefix
  default_loopback = rw (is_loopback_listen, loopback) refl

  default-IsUsable : IsUsable lib default
  unfolding default bytes_of
  default-IsUsable = record {
    listens = λ e. absurd (ground arith);
    health = default_health;
    rooms = (49, refl);
    peers = (8, refl, omega arith, omega arith);
    connections = (199, refl);
    proxies = tt;
    password = omega arith;
    websocket = inr (inr default_loopback);
    udp = inl refl;
    level = refl;
    no_letsencrypt = refl;
    certificate = inl refl;
    hello = (9, refl);
    room_create = (4, refl);
    room_join = (29, refl);
    room_list = (59, refl);
    control = (119, refl);
    audio = (199, refl);
    password_checks = (3, refl);
  }

  -- Settings that load without an error are usable: the WebSocket listener is named, the health
  -- listener is a loopback address, the limits on rooms, connections and rates are positive and at
  -- most 8 peers share a room, every trusted proxy parses, the password fits bcrypt, a plaintext
  -- listener beyond loopback and UDP are only there if the settings accept them, TLS has its
  -- files, and the log level is a known one; the parser of addresses is to read 127.0.0.1.
  pub load-IsUsable :
      (path : Bytes) (file : File) (c : Config) → load lib path file ≡ (c, none) → IsUsable lib c
  unfolding load
  load-IsUsable path missing c h = subst (IsUsable lib) (loaded_default h) default-IsUsable
    where
      loaded_default : load lib path missing ≡ (c, none) → default ≡ c
      loaded_default e = elim (Bool-cases (path == [])) [
        | inl no_path ↦ ground arith
        | inr some_path ↦ ground arith
      ]
  load-IsUsable path (undecodable given) c h = elim (Bool-cases (path == [])) [
    | inl no_path ↦ subst (IsUsable lib) (ground arith) default-IsUsable
    | inr some_path ↦ absurd (ground arith)
  ]
  load-IsUsable path (decoded given) c h = elim (Bool-cases (path == [])) [
    | inl no_path ↦ subst (IsUsable lib) (ground arith) default-IsUsable
    | inr some_path ↦ validate-IsUsable lib given c (ground arith)
  ]
