-- ===== src/Ws/Http.antt =====
-- The HTTP side of internal/ws/dispatch.go: which requests are upgraded, how many connections there
-- are, and the UDP endpoint that a session's welcome advertises. Texts are lists of bytes.
pub mod Capacity
pub mod Endpoint
mod Tests
use network_ultra_server.Prelude.{
  ℕ, ◌+◌, ◌-◌, Bool, true, false, not, ◌&&◌, List, [], ◌∷◌, Option, none, some, ◌==◌, leb,
  if◌then◌else◌, bytes_eq,
}
use network_ultra_server.Strings.{Bytes, ℤ, pos, negsuc, is_positive, trim_space, itoa}
use network_ultra_server.Net.{split_host_port, join_host_port}

pub record Gate : Type 0 where
  pub cur_conns : ℕ
  pub max_connections : ℤ

pub data Answer : Type 0 where
  forbidden server_full upgraded : Answer

-- The loop over the Origin headers.
unfoldable pub has_origin : List Bytes → Bool
has_origin [] = false
has_origin (origin ∷ rest) = if not (trim_space origin == []) then true else has_origin rest

-- `int(s.curConns) >= s.MaxConnections`
unfoldable pub is_full : Gate → Bool
is_full g = elim g.max_connections [ pos max ↦ leb max g.cur_conns | negsuc _ ↦ true ]

-- HandleHTTP up to the upgrade.
unfoldable pub handle_http : Gate → List Bytes → Gate × Answer
handle_http g origins =
    if has_origin origins
    then (g, Answer.forbidden)
    else if is_full g
    then (g, Answer.server_full)
    else (record g { cur_conns = g.cur_conns + 1 }, Answer.upgraded)

-- What HandleHTTP defers until the session, or the failed upgrade, is over.
unfoldable pub release : Gate → Gate
release g = record g { cur_conns = g.cur_conns - 1 }

-- The host that the client asked for: SplitHostPort's, or the whole header.
unfoldable pub requested_host : Bytes → Bytes
requested_host host_header = elim (split_host_port host_header) [
  | none ↦ host_header
  | some (host, _) ↦ host
]

-- The endpoint of the welcome, which is empty if there is none: the configured one, or the host that
-- the client asked for with the UDP port.
unfoldable pub welcome_endpoint : Bytes → ℤ → Bytes → Bytes
welcome_endpoint udp_endpoint udp_port host_header =
    if not (udp_endpoint == []) then udp_endpoint else (elim udp_port [
      | negsuc _ ↦ []
      | pos port ↦
          if is_positive (pos port) && not (host_header == [])
          then if not (requested_host host_header == [])
            then join_host_port (requested_host host_header) (itoa port)
            else []
          else []
    ])
