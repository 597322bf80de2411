-- ===== src/Ws/Rooms.antt =====
-- The handlers of internal/ws/dispatch.go that create, join, leave and list rooms. A message is
-- handled in one step; `p` is the session's peer as the store has it. The UUID that uuid.New gives
-- and the clock's reading are arguments.
use network_ultra_server.Prelude.{
  ℕ, String, ◌&&◌, not, List, Option, none, some, ◌==◌, ltb, if◌then◌else◌, length, string_eq,
  bytes_eq,
}
use network_ultra_server.Prelude.Maps.{lookup}
use network_ultra_server.Room.State.{
  Uuid, RoomError, ok, err, Peer, Room, World, put_peer, PeerSnapshot,
}
use network_ultra_server.Room.Ops.{
  add, remove, snapshot_of, check_password, hash_password, max_password_bytes,
}
use network_ultra_server.Room.Registry.{create, find, publish_update, public_list}
use network_ultra_server.Ws.Labels.{bytes_of, trim_space, valid_room_name}
use network_ultra_server.Ws.State.{
  Hub, ErrorCode, Message, Envelope, RoomCreateData, RoomJoinData, Libraries, send, send_error,
  broadcast_to_others, allow_peer, do_password_work,
}

abbrev pub minute : ℕ
minute = 60_000_000_000

-- The room as the store has it now.
unfoldable pub refreshed : World → Room → Room
refreshed w r = elim (lookup r.id w.rooms) [ none ↦ r | some r' ↦ r' ]

add_error_code : RoomError → ErrorCode
add_error_code RoomError.room_not_found = ErrorCode.room_not_found
add_error_code _ = ErrorCode.room_full

-- joinPeerToRoom behind Add: the reply, the notice to the others, and the update.
unfoldable pub announce_join : Hub → Peer → Room → String → List PeerSnapshot → Hub
announce_join h p r request others =
    let h1 = send h p.id (Message.room_joined request r.id r.name others) in
    let h2 =
      broadcast_to_others h1 (refreshed h1.world r) p.id (Message.peer_joined (snapshot_of p)) in
    record h2 { world = publish_update h2.world (refreshed h2.world r) }

unfoldable pub join_peer_to_room : Hub → Peer → Room → String → String → Hub
unfolding add_error_code
join_peer_to_room h p r role request =
    let p' = record p { role = role } in
    let (w, outcome) = add (put_peer h.world p') r p' in
    elim outcome [
      | err e ↦ send_error (record h { world = w }) p.id request (add_error_code e)
      | ok others ↦ announce_join (record h { world = w }) p' r request others
    ]

create_error_code : RoomError → ErrorCode
create_error_code RoomError.room_name_taken = ErrorCode.room_name_taken
create_error_code RoomError.server_full = ErrorCode.server_full
create_error_code _ = ErrorCode.internal_error

unfoldable pub known_visibility : String → String
known_visibility v = if not (v == "public") && not (v == "private") then "private" else v

-- `if role != "send" && role != "recv" { role = "send" }`
unfoldable pub known_role : String → String
known_role role = if not (role == "send") && not (role == "recv") then "send" else role

module _ (lib : Libraries) where
  -- handleRoomCreate from the registry's Create on.
  unfoldable pub create_and_join :
      Hub → Peer → String → RoomCreateData → Option (List ℕ) → Uuid → ℕ → Hub
  unfolding create_error_code
  create_and_join h p request d hash id now =
      let (w, outcome) =
        create lib.to_lower h.world id now (trim_space d.room_name) (known_visibility d.visibility)
          hash in
      elim outcome [
        | err e ↦ send_error (record h { world = w }) p.id request (create_error_code e)
        | ok r ↦ join_peer_to_room (record h { world = w }) p r "send" request
      ]

  -- `if d.Password != ""`: the work is hashing.
  unfoldable pub hash_and_create : Hub → Peer → String → RoomCreateData → Uuid → ℕ → Hub
  hash_and_create h p request d id now =
      if d.password == ""
      then create_and_join h p request d none id now
      else (elim (do_password_work h (hash_password lib.generate_hash (bytes_of d.password))) [
        | none ↦ send_error h p.id request ErrorCode.rate_limited
        | some (err _) ↦ send_error h p.id request ErrorCode.internal_error
        | some (ok hash) ↦ create_and_join h p request d hash id now
      ])

  unfoldable pub create_request : Hub → Peer → Envelope → Uuid → ℕ → Hub
  create_request h p env id now = elim (lib.unmarshal_room_create env.data_bytes) [
    | none ↦ send_error h p.id env.id ErrorCode.protocol_error
    | some d ↦
        if not (valid_room_name d.room_name)
        then send_error h p.id env.id ErrorCode.protocol_error
        else if ltb max_password_bytes (length (bytes_of d.password))
        then send_error h p.id env.id ErrorCode.protocol_error
        else hash_and_create h p env.id d id now
  ]

  unfoldable pub handle_room_create : Hub → Peer → Envelope → Uuid → ℕ → Hub
  handle_room_create h p env id now =
      let (h', allowed) =
        allow_peer lib h p "room_create" h.rate_limits.room_create_per_peer_per_minute minute now in
      if not allowed then send_error h' p.id env.id ErrorCode.rate_limited else (elim p.cur_room [
        | some _ ↦ send_error h' p.id env.id ErrorCode.already_in_room
        | none ↦ create_request h' p env id now
      ])

  -- `if rm.HasPassword`: the work is checking.
  unfoldable pub check_and_join : Hub → Peer → String → RoomJoinData → Room → Hub
  check_and_join h p request d r =
      if not r.has_password
      then join_peer_to_room h p r (known_role d.role) request
      else (elim (do_password_work h (check_password lib.compare_hash r (bytes_of d.password))) [
        | none ↦ send_error h p.id request ErrorCode.rate_limited
        | some (some _) ↦ send_error h p.id request ErrorCode.bad_password
        | some none ↦ join_peer_to_room h p r (known_role d.role) request
      ])

  unfoldable pub join_request : Hub → Peer → Envelope → Hub
  join_request h p env = elim (lib.unmarshal_room_join env.data_bytes) [
    | none ↦ send_error h p.id env.id ErrorCode.protocol_error
    | some d ↦
        if not (valid_room_name d.room_name)
        then send_error h p.id env.id ErrorCode.protocol_error
        else if ltb max_password_bytes (length (bytes_of d.password))
        then send_error h p.id env.id ErrorCode.protocol_error
        else (elim (find lib.to_lower h.world (trim_space d.room_name)) [
          | none ↦ send_error h p.id env.id ErrorCode.room_not_found
          | some r ↦ check_and_join h p env.id d r
        ])
  ]

  unfoldable pub handle_room_join : Hub → Peer → Envelope → ℕ → Hub
  handle_room_join h p env now =
      let (h', allowed) =
        allow_peer lib h p "room_join" h.rate_limits.room_join_per_peer_per_minute minute now in
      if not allowed then send_error h' p.id env.id ErrorCode.rate_limited else (elim p.cur_room [
        | some _ ↦ send_error h' p.id env.id ErrorCode.already_in_room
        | none ↦ join_request h' p env
      ])

  unfoldable pub handle_room_list : Hub → Peer → Envelope → ℕ → Hub
  handle_room_list h p env now =
      let (h', allowed) =
        allow_peer lib h p "room_list" h.rate_limits.room_list_per_peer_per_minute minute now in
      if not allowed
      then send_error h' p.id env.id ErrorCode.rate_limited
      else send h' p.id (Message.room_list_result env.id (public_list h'.world))

-- cleanupPeer from Remove on.
unfoldable pub part : Hub → Peer → Room → String → Hub
part h p r reason =
    let h1 = record h { world = remove h.world r p } in
    let h2 = broadcast_to_others h1 (refreshed h1.world r) p.id (Message.peer_left p.id reason) in
    record h2 { world = publish_update h2.world (refreshed h2.world r) }

-- The pointer to the peer's room is its UUID, which the store resolves.
unfoldable pub current_room : World → Peer → Option Room
current_room w p = elim p.cur_room [ none ↦ none | some id ↦ lookup id w.rooms ]

unfoldable pub cleanup_peer : Hub → Peer → String → Hub
cleanup_peer h p reason = elim (current_room h.world p) [ none ↦ h | some r ↦ part h p r reason ]

unfoldable pub handle_room_leave : Hub → Peer → Envelope → Hub
handle_room_leave h p env = elim (current_room h.world p) [
  | none ↦ send_error h p.id env.id ErrorCode.not_in_room
  | some r ↦ send (cleanup_peer h p "leave") p.id (Message.room_left env.id)
]
