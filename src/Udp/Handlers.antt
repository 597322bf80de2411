-- ===== src/Udp/Handlers.antt =====
-- The handlers of internal/udp/server.go. Each holds the server's lock while it changes its maps,
-- so each is one step; the clock's reading is an argument.
use network_ultra_server.Prelude.{
  ℕ, String, Bool, false, not, List, [], Option, none, some, ◌==◌, nat_eqb, get_or, length, ltb,
  if◌then◌else◌, bytes_eq,
}
use network_ultra_server.Prelude.Maps.{Map, lookup, insert, delete, has}
use network_ultra_server.Proto.Audio.{unpack, AudioFrameHeader, audio_frame_type}
use network_ultra_server.Proto.Audio
use network_ultra_server.Proto.Udp.{
  UdpHelloFrame, unpack_udp_hello, unpack_udp_ping, pack_udp_welcome, pack_udp_pong,
  udp_frame_type_hello, udp_frame_type_ping,
}
use network_ultra_server.Proto.Udp
use network_ultra_server.RateLimit.Limiter.{allow}
use network_ultra_server.Room.State.{Uuid, Peer, Frame}
use network_ultra_server.Udp.State.{
  UdpAddr, addr_eq, addr_string, same_udp_addr, Binding, Server, second, minute,
}

-- What became of a datagram: the label that its counter gets, or what it led to.
pub data Verdict : Type 0 where
  empty unknown_type : Verdict
  bad_hello unknown_peer bad_token hello_rate_limit endpoint_rebind endpoint_in_use : Verdict
  bad_ping unknown_ping_source : Verdict
  unknown_source audio_rate_limit bad_audio spoof_peer_id muted not_in_room : Verdict
  replied : List ℕ → Verdict
  forwarded : Uuid → Frame → Verdict

-- The random bytes are io.ReadFull's result.
unfoldable pub mint_token : Server → Uuid → Option (List ℕ) → Server × Option (List ℕ)
mint_token s id none = (s, none)
mint_token s id (some token) =
    (record s { token_by_id = insert id token s.token_by_id }, some token)

unfoldable pub attach_peer : Server → Uuid → Server
attach_peer s id = record s {
  peer_by_id = insert id tt s.peer_by_id;
  senders = insert id tt s.senders;
}

-- `if current != nil && current.peer == p { delete(m, key) }`
unfoldable pub unbind : Map UdpAddr Binding → UdpAddr → Uuid → Map UdpAddr Binding
unbind m key id = elim (lookup key m) [
  | none ↦ m
  | some current ↦ if current.peer == id then delete key m else m
]

unfoldable pub detach_peer : Server → Uuid → Server
detach_peer s id =
    let s' = record s {
      senders = delete id s.senders;
      peer_by_id = delete id s.peer_by_id;
      token_by_id = delete id s.token_by_id;
    } in
    elim (lookup id s.udp_addr) [
      | none ↦ s'
      | some a ↦ record s' {
        peer_by_addr = unbind s.peer_by_addr (addr_string a) id;
        udp_addr =
            if same_udp_addr (lookup id s.udp_addr) a then delete id s.udp_addr else s.udp_addr;
      }
    ]

-- `oldAddr != nil && oldAddr.String() != src.String()`
unfoldable pub is_rebind : Option UdpAddr → UdpAddr → Bool
is_rebind none src = false
is_rebind (some old) src = not (addr_string old == addr_string src)

-- `owner != nil && owner.peer.ID != p.ID`
unfoldable pub is_taken : Option Binding → Uuid → Bool
is_taken none id = false
is_taken (some owner) id = not (owner.peer == id)

-- `b.lastSeen = s.now()`
abbrev pub seen : Server → UdpAddr → Binding → ℕ → Server
seen s src b now = record s {
  peer_by_addr = insert (addr_string src) (record b { last_seen = now }) s.peer_by_addr;
}

unfoldable pub handle_ping : Server → List ℕ → UdpAddr → ℕ → Server × Verdict
handle_ping s pkt src now = elim (unpack_udp_ping pkt) [
  | Udp.err _ ↦ (s, Verdict.bad_ping)
  | Udp.ok id ↦ elim (lookup (addr_string src) s.peer_by_addr) [
    | none ↦ (s, Verdict.unknown_ping_source)
    | some b ↦
        if not (b.peer == id)
        then (s, Verdict.unknown_ping_source)
        else (seen s src b now, Verdict.replied (pack_udp_pong id []))
  ]
]

-- handleAudio from its last critical section on: the peer's state decides.
unfoldable pub forward_audio : Option Peer → List ℕ → Verdict
forward_audio none pkt = Verdict.not_in_room
forward_audio (some p) pkt = if p.muted then Verdict.muted else (elim p.cur_room [
  | none ↦ Verdict.not_in_room
  | some room ↦
      Verdict.forwarded room (record { source_peer_id = p.id; payload = pkt; done = none })
])

module _ (uuid_string : Uuid → String) where
  -- The part of handleHello behind the token's check.
  unfoldable pub bind_endpoint : Server → Uuid → List ℕ → UdpAddr → ℕ → Server × Verdict
  bind_endpoint s id token src now =
      let (limiter, allowed) = allow s.hello_limiter now (uuid_string id) s.hello_limit minute in
      let s' = record s { hello_limiter = limiter } in
      if not allowed
      then (s', Verdict.hello_rate_limit)
      else if is_rebind (lookup id s.udp_addr) src
      then (s', Verdict.endpoint_rebind)
      else if is_taken (lookup (addr_string src) s.peer_by_addr) id
      then (s', Verdict.endpoint_in_use)
      else (
        record s' {
          udp_addr = insert id src s.udp_addr;
          peer_by_addr =
              insert (addr_string src)
                (record { peer = id; addr = src; token = token; last_seen = now }) s.peer_by_addr;
        },
        Verdict.replied (pack_udp_welcome id []),
      )

  unfoldable pub check_hello : Server → UdpHelloFrame → UdpAddr → ℕ → Server × Verdict
  check_hello s hello src now =
      if not (has hello.peer_id s.peer_by_id)
      then (s, Verdict.unknown_peer)
      else (elim (lookup hello.peer_id s.token_by_id) [
        | none ↦ (s, Verdict.unknown_peer)
        | some token ↦
            if not (hello.token == token)
            then (s, Verdict.bad_token)
            else bind_endpoint s hello.peer_id token src now
      ])

  unfoldable pub handle_hello : Server → List ℕ → UdpAddr → ℕ → Server × Verdict
  handle_hello s pkt src now = elim (unpack_udp_hello pkt) [
    | Udp.err _ ↦ (s, Verdict.bad_hello)
    | Udp.ok hello ↦ check_hello s hello src now
  ]

  unfoldable pub handle_audio : Server → Map Uuid Peer → List ℕ → UdpAddr → ℕ → Server × Verdict
  handle_audio s peers pkt src now = elim (lookup (addr_string src) s.peer_by_addr) [
    | none ↦ (s, Verdict.unknown_source)
    | some b ↦
        (let (limiter, allowed) =
            allow s.audio_limiter now (uuid_string b.peer) s.audio_limit second in
          let s' = record s { audio_limiter = limiter } in
          if not allowed then (s', Verdict.audio_rate_limit) else (elim (unpack pkt) [
            | Audio.err _ ↦ (s', Verdict.bad_audio)
            | Audio.ok (hdr, _) ↦
                if not (hdr.source_peer_id == b.peer)
                then (s', Verdict.spoof_peer_id)
                else (seen s' src b now, forward_audio (lookup b.peer peers) pkt)
          ]))
  ]

  -- readLoop's dispatch of one datagram.
  unfoldable pub dispatch : Server → Map Uuid Peer → List ℕ → UdpAddr → ℕ → Server × Verdict
  dispatch s peers pkt src now =
      if ltb (length pkt) 1
      then (s, Verdict.empty)
      else if nat_eqb (get_or pkt 0 0) audio_frame_type
      then handle_audio s peers pkt src now
      else if nat_eqb (get_or pkt 0 0) udp_frame_type_hello
      then handle_hello s pkt src now
      else if nat_eqb (get_or pkt 0 0) udp_frame_type_ping
      then handle_ping s pkt src now
      else (s, Verdict.unknown_type)
