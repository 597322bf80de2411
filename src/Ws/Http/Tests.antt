-- ===== src/Ws/Http/Tests.antt =====
-- Requests and endpoints at concrete values.
use network_ultra_server.Prelude.{◌≡◌, refl, inl, [], none, some, arith, bytes_eq}
use network_ultra_server.Strings.{
  Bytes, pos, itoa, digits_of, last_index_byte, index_byte, contains_byte,
}
use network_ultra_server.Net.{split_host_port, split_at, join_host_port}
use network_ultra_server.Ws.Labels.{bytes_of}
use network_ultra_server.Ws.Http.{
  has_origin, is_full, handle_http, requested_host, welcome_endpoint,
}
use network_ultra_server.Ws.Http.Capacity.{
  Traffic, idle, after_request, Step, Reach, IsCounted, Reach-IsCounted,
}
use network_ultra_server.Ws.Http.Endpoint.{split-welcome_endpoint}

abbrev two : Traffic
two = after_request (after_request (idle (pos 1)) []) []

one_runs : (after_request (idle (pos 1)) []).running ≡ 1
unfolding handle_http has_origin is_full
one_runs = refl

Reach-IsCounted_example : IsCounted (pos 1) two
Reach-IsCounted_example =
    Reach-IsCounted (pos 1) two
      (Reach.next (Reach.next Reach.start (Step.requests [])) (Step.requests []))

abbrev header : Bytes
header = bytes_of "[::1]:80"

abbrev host : Bytes
host = bytes_of "::1"

header_splits : split_host_port header ≡ some (host, bytes_of "80")
unfolding split_host_port last_index_byte index_byte contains_byte split_at bytes_of
header_splits = refl

split-welcome_endpoint_example :
    split_host_port (welcome_endpoint [] (pos 18902) header) ≡ some (host, itoa 18902)
unfolding bytes_of
split-welcome_endpoint_example =
    split-welcome_endpoint header host 18901 (inl (bytes_of "80", header_splits))
      (λ e. absurd (ground arith)) (λ e. absurd (ground arith))

-- A bracketed address without a port keeps its brackets and gets others.
bracketed : welcome_endpoint [] (pos 18902) (bytes_of "[::1]") ≡ bytes_of "[[::1]]:18902"
unfolding welcome_endpoint requested_host split_host_port last_index_byte index_byte contains_byte
    split_at join_host_port itoa digits_of bytes_of
bracketed = refl

bracketed_unreadable : split_host_port (bytes_of "[[::1]]:18902") ≡ none
unfolding split_host_port last_index_byte index_byte contains_byte split_at bytes_of
bracketed_unreadable = refl
