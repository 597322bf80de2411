-- ===== src/Ws/Access.antt =====
-- Who gets as far as a room.
use network_ultra_server.Prelude.{
  ℕ, ◌≡◌, ◌⊎◌, inl, inr, true, String, none, some, arith, Bool-cases, Option-cases, bytes_eq,
  string_eq,
}
use network_ultra_server.Room.State.{Peer, Room}
use network_ultra_server.Room.Ops.{check_password}
use network_ultra_server.Room.Registry.{find}
use network_ultra_server.Ws.Labels.{bytes_of, trim_space, valid_room_name}
use network_ultra_server.Ws.State.{
  Hub, Envelope, Libraries, RoomJoinData, allow_peer, do_password_work,
}
use network_ultra_server.Ws.Rooms.{
  minute, handle_room_join, join_request, check_and_join, join_peer_to_room, known_role,
}

module _ (lib : Libraries) (p : Peer) (env : Envelope) where
  check_cases :
      (h : Hub) (request : String) (d : RoomJoinData) (r : Room)
      → ((check_and_join lib h p request d r).world ≡ h.world)
        ⊎ ((check_password lib.compare_hash r (bytes_of d.password) ≡ none)
            × (check_and_join lib h p request d r
                ≡ join_peer_to_room h p r (known_role d.role) request))
  unfolding check_and_join do_password_work check_password
  check_cases h request d r =
      elim (Option-cases (check_password lib.compare_hash r (bytes_of d.password))) [
        | inr (e, wrong) ↦ ground arith
        | inl right ↦ ground arith
      ]

  -- What a join request shows before the room is asked.
  abbrev pub Entitled : Hub → RoomJoinData → Room → Type 0
  Entitled h d r =
      (lib.unmarshal_room_join env.data_bytes ≡ some d)
      × (valid_room_name d.room_name ≡ true)
      × (find lib.to_lower h.world (trim_space d.room_name) ≡ some r)
      × (check_password lib.compare_hash r (bytes_of d.password) ≡ none)

  request_cases :
      (h : Hub)
      → ((join_request lib h p env).world ≡ h.world)
        ⊎ ((d : RoomJoinData) × (r : Room) × Entitled h d r
            × (join_request lib h p env ≡ join_peer_to_room h p r (known_role d.role) env.id))
  unfolding join_request
  request_cases h = elim (Option-cases (lib.unmarshal_room_join env.data_bytes)) [
    | inl bad ↦ inl (ground arith)
    | inr (d, good) ↦ elim (Option-cases (find lib.to_lower h.world (trim_space d.room_name))) [
      | inl missing ↦ inl (ground arith)
      | inr (r, found) ↦ elim (check_cases h env.id d r) [
        | inl same ↦ inl (ground arith)
        | inr (right, e) ↦ elim (Bool-cases (valid_room_name d.room_name)) [
          | inr n ↦ inl (ground arith)
          | inl y ↦ ground arith
        ]
      ]
    ]
  ]

  -- The server behind the limiter's call for a join.
  abbrev pub charged : Hub → ℕ → Hub
  charged h now =
      (allow_peer lib h p "room_join" h.rate_limits.room_join_per_peer_per_minute minute now).0

  -- A join request that changes the registry comes from a peer in no room, has a valid room name
  -- that finds a published room, and a password that the room accepts, and is then Room.Add's to
  -- decide; any other leaves the registry as it is.
  pub handle_room_join_cases :
      (h : Hub) (now : ℕ)
      → ((handle_room_join lib h p env now).world ≡ h.world)
        ⊎ ((d : RoomJoinData) × (r : Room) × Entitled h d r
            × (p.cur_room ≡ none)
            × (handle_room_join lib h p env now
                ≡ join_peer_to_room (charged h now) p r (known_role d.role) env.id))
  unfolding handle_room_join allow_peer
  handle_room_join_cases h now = elim (Option-cases p.cur_room) [
    | inr (at, there) ↦ inl (ground arith)
    | inl free ↦ elim (request_cases (charged h now)) [
      | inl same ↦ inl (ground arith)
      | inr (d, r, why, e) ↦
          elim (Bool-cases
            (allow_peer lib h p "room_join" h.rate_limits.room_join_per_peer_per_minute minute
              now).1) [ inr n ↦ inl (ground arith) | inl y ↦ inr (d, r, why, free, ground arith) ]
    ]
  ]
