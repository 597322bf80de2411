-- ===== src/Ws/Http/Endpoint.antt =====
-- What a client makes of the endpoint that it is told.
use network_ultra_server.Prelude.{ℕ, suc, ◌≡◌, ◌≢◌, ◌⊎◌, inl, inr, true, [], none, some, arith}
use network_ultra_server.Strings.{Bytes, pos, is_positive, itoa}
use network_ultra_server.Strings.Positions.{not_empty, Without, digits_of-Without}
use network_ultra_server.Net.{split_host_port}
use network_ultra_server.Net.HostPort.{IsPlain, split-join_host_port, split_host_port-Without}
use network_ultra_server.Ws.Http.{requested_host, welcome_endpoint}

-- The header is a host and a port, or a host alone that has no brackets.
abbrev pub IsHost : Bytes → Bytes → Type 0
IsHost header host =
    ((port : Bytes) × (split_host_port header ≡ some (host, port)))
    ⊎ ((split_host_port header ≡ none) × (header ≡ host) × Without b'[' host × Without b']' host)

requested : (header host : Bytes) → IsHost header host → requested_host header ≡ host
unfolding requested_host
requested header host (inl (port, e)) = ground arith
requested header host (inr (e, same, _, _)) = ground arith

plain : (header host : Bytes) (n : ℕ) → IsHost header host → IsPlain host (itoa n)
unfolding itoa
plain header host n at =
    let (no_open, no_close) = brackets at in
    record {
      no_open = no_open;
      no_close = no_close;
      port_open = digits_of-Without b'[' 20 n (omega arith);
      port_close = digits_of-Without b']' 20 n (omega arith);
      port_colon = digits_of-Without b':' 20 n (omega arith);
    }
  where
    brackets : IsHost header host → Without b'[' host × Without b']' host
    brackets (inl (port, e)) = split_host_port-Without header host port e
    brackets (inr (_, _, no_open, no_close)) = (no_open, no_close)

-- With a UDP port and no endpoint configured, a client that asked for a host with a port, or for a
-- host alone without brackets, is told an endpoint that splits into that host and the UDP port.
pub split-welcome_endpoint :
    (header host : Bytes) (n : ℕ)
    → IsHost header host
    → host ≢ []
    → header ≢ []
    → split_host_port (welcome_endpoint [] (pos (suc n)) header) ≡ some (host, itoa (suc n))
unfolding welcome_endpoint
split-welcome_endpoint header host n at some_host some_header =
    let filled_host = not_empty host some_host in
    let filled_header = not_empty header some_header in
    let positive : is_positive (pos (suc n)) ≡ true = ground arith in
    rw (positive, requested header host at, filled_host, filled_header)
      (split-join_host_port host (itoa (suc n)) (plain header host (suc n) at))
