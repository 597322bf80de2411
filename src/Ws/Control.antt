-- ===== src/Ws/Control.antt =====
-- The rest of internal/ws/dispatch.go: muting, subscriptions, pings, the dispatch of a control
-- message, and a frame of audio over the WebSocket.
use network_ultra_server.Prelude.{
  ℕ, Bool, not, List, none, some, ◌==◌, if◌then◌else◌, string_eq, bytes_eq,
}
use network_ultra_server.Proto.Audio.{unpack}
use network_ultra_server.Proto.Audio
use network_ultra_server.Room.State.{Uuid, Peer, Room, put_peer, put_room}
use network_ultra_server.Room.Ops.{set_subscribed}
use network_ultra_server.Room.Audio.{forward}
use network_ultra_server.Ws.Labels.{Ids, parse_subscription_ids}
use network_ultra_server.Ws.State.{
  Hub, ErrorCode, Message, Envelope, Libraries, decode, send, send_error, broadcast_to_others,
  allow_peer,
}
use network_ultra_server.Ws.Rooms.{
  minute, current_room, handle_room_create, handle_room_join, handle_room_leave, handle_room_list,
}

abbrev pub second : ℕ
second = 1_000_000_000

-- handlePeerMute behind the decoding.
unfoldable pub set_muted : Hub → Peer → Bool → Hub
set_muted h p on =
    let h' = record h { world = put_peer h.world (record p { muted = on }) } in
    elim (current_room h'.world p) [
      | none ↦ h'
      | some r ↦ broadcast_to_others h' r p.id (Message.peer_mute_changed p.id on)
    ]

-- What became of a frame of audio: the label that its counter gets, or forwarded.
pub data AudioVerdict : Type 0 where
  rate_limit protocol_error not_in_room muted backpressure forwarded : AudioVerdict

offer : Hub → Peer → Room → List ℕ → Hub × AudioVerdict
offer h p r payload =
    let (r', taken, _) =
      forward r (record { source_peer_id = p.id; payload = payload; done = none }) in
    if taken
    then (record h { world = put_room h.world r' }, AudioVerdict.forwarded)
    else (h, AudioVerdict.backpressure)

module _ (lib : Libraries) where
  unfoldable pub handle_peer_mute : Hub → Peer → Envelope → Hub
  handle_peer_mute h p env = elim (lib.unmarshal_peer_mute env.data_bytes) [
    | none ↦ send_error h p.id env.id ErrorCode.protocol_error
    | some on ↦ set_muted h p on
  ]

  unfoldable pub handle_subscribe : Hub → Peer → Envelope → Hub
  handle_subscribe h p env = elim (lib.unmarshal_subscribe env.data_bytes) [
    | none ↦ send_error h p.id env.id ErrorCode.protocol_error
    | some raw ↦ elim (parse_subscription_ids lib.uuid_parse raw) [
      | Ids.refused _ ↦ send_error h p.id env.id ErrorCode.protocol_error
      | Ids.ids sources ↦ record h { world = put_peer h.world (set_subscribed p (some sources)) }
    ]
  ]

  unfoldable pub handle_ping : Hub → Peer → Envelope → ℕ → Hub
  handle_ping h p env now =
      send h p.id (Message.pong env.id (lib.unmarshal_ping env.data_bytes) now)

  -- handleControl's switch.
  unfoldable pub dispatch_control : Hub → Peer → Envelope → Uuid → ℕ → Hub
  dispatch_control h p env id now =
      if env.type_name == "room_create"
      then handle_room_create lib h p env id now
      else if env.type_name == "room_join"
      then handle_room_join lib h p env now
      else if env.type_name == "room_leave"
      then handle_room_leave h p env
      else if env.type_name == "room_list"
      then handle_room_list lib h p env now
      else if env.type_name == "peer_mute"
      then handle_peer_mute h p env
      else if env.type_name == "subscribe"
      then handle_subscribe h p env
      else if env.type_name == "ping"
      then handle_ping h p env now
      else send_error h p.id env.id ErrorCode.protocol_error

  unfoldable pub handle_control : Hub → Peer → List ℕ → Uuid → ℕ → Hub
  handle_control h p payload id now =
      let (h', allowed) =
        allow_peer lib h p "control" h.rate_limits.control_per_peer_per_minute minute now in
      if not allowed
      then send_error h' p.id "" ErrorCode.rate_limited
      else if not (lib.utf8_valid payload)
      then send_error h' p.id "" ErrorCode.protocol_error
      else (elim (decode lib payload) [
        | none ↦ send_error h' p.id "" ErrorCode.protocol_error
        | some env ↦ dispatch_control h' p env id now
      ])

  unfoldable pub handle_audio : Hub → Peer → List ℕ → ℕ → Hub × AudioVerdict
  unfolding offer
  handle_audio h p payload now =
      let (h', allowed) =
        allow_peer lib h p "ws_audio" h.rate_limits.audio_frames_per_peer_per_sec second now in
      if not allowed then (h', AudioVerdict.rate_limit) else (elim (unpack payload) [
        | Audio.err _ ↦ (h', AudioVerdict.protocol_error)
        | Audio.ok (hdr, _) ↦ elim (current_room h'.world p) [
          | none ↦ (h', AudioVerdict.not_in_room)
          | some r ↦
              if not (hdr.source_peer_id == p.id)
              then (h', AudioVerdict.protocol_error)
              else if p.muted
              then (h', AudioVerdict.muted)
              else offer h' p r payload
        ]
      ])
