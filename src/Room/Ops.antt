-- ===== src/Room/Ops.antt =====
-- internal/room/room.go and peer.go: what changes a room or a peer, under its lock.
use network_ultra_server.Prelude.{
  ℕ, ◌+◌, ◌%◌, ◌^◌, String, Bool, true, false, ◌||◌, not, List, [], ◌∷◌, Option, none, some, ◌==◌,
  nat_eqb, ltb, leb, if◌then◌else◌, length, bytes_eq, string_eq,
}
use network_ultra_server.Prelude.Maps.{Map, lookup, insert, delete, has}
use network_ultra_server.Room.State.{
  Uuid, RoomError, Result, ok, err, Peer, Room, PeerSnapshot, World, put_room, put_peer,
}

-- peer.go, NewPeer; the UUID and the time are the callees' results.
abbrev pub new_peer : Uuid → ℕ → String → String → Peer
new_peer id now username role = record {
  id = id;
  username = username;
  role = role;
  joined_at = now;
  remote_ip = "";
  muted = false;
  subscribed = none;
  send = false;
  udp_send = false;
  cur_room = none;
}

unfoldable pub is_subscribed : Peer → Uuid → Bool
is_subscribed p src = elim p.subscribed [ none ↦ true | some subs ↦ has src subs ]

id_set : List Uuid → Map Uuid (Unit {0})
id_set [] = []
id_set (id ∷ ids) = insert id tt (id_set ids)

-- `none` is Go's nil slice.
unfoldable pub set_subscribed : Peer → Option (List Uuid) → Peer
unfolding id_set
set_subscribed p none = record p { subscribed = none }
set_subscribed p (some ids) = record p { subscribed = some (id_set ids) }

abbrev pub snapshot_of : Peer → PeerSnapshot
snapshot_of p = record {
  id = p.id;
  username = p.username;
  role = p.role;
  muted = p.muted;
  joined_at = p.joined_at;
}

-- The peers of a room in the order of its map, without `except`.
unfoldable pub snapshots_but : Uuid → Map Uuid Peer → Map Uuid (Unit {0}) → List PeerSnapshot
snapshots_but except store [] = []
snapshots_but except store ((id, _) ∷ rest) =
    let others = snapshots_but except store rest in
    if id == except
    then others
    else (elim (lookup id store) [ none ↦ others | some p ↦ snapshot_of p ∷ others ])

-- Room.Snapshot
unfoldable pub snapshots : Map Uuid Peer → Map Uuid (Unit {0}) → List PeerSnapshot
snapshots store [] = []
snapshots store ((id, _) ∷ rest) =
    let others = snapshots store rest in
    elim (lookup id store) [ none ↦ others | some p ↦ snapshot_of p ∷ others ]

abbrev pub peer_count : Room → ℕ
peer_count r = length r.peers

abbrev pub max_password_bytes : ℕ
max_password_bytes = 72

-- bcrypt.CompareHashAndPassword is an argument; a password is its UTF-8 bytes.
unfoldable pub check_password : (Option (List ℕ) → List ℕ → Bool) → Room → List ℕ → Option RoomError
check_password compare r plain =
    if not r.has_password
    then none
    else if ltb max_password_bytes (length plain)
    then some RoomError.bad_password
    else if compare r.password_hash plain
    then none
    else some RoomError.bad_password

-- bcrypt.GenerateFromPassword is an argument. `ok none` is Go's nil hash, "no password".
unfoldable pub hash_password : (List ℕ → Option (List ℕ)) → List ℕ → Result (Option (List ℕ))
hash_password generate [] = ok none
hash_password generate (c ∷ cs) =
    if ltb max_password_bytes (length (c ∷ cs))
    then err RoomError.password_too_long
    else (elim (generate (c ∷ cs)) [ none ↦ err RoomError.hashing_failed | some h ↦ ok (some h) ])

abbrev pub generation_after : ℕ → ℕ
generation_after g = (g + 1) % 2 ^ 64

abbrev pub armed : Option ℕ → Bool
armed none = false
armed (some _) = true

-- Room.scheduleDestroyIfEmpty, for a room of the registry; the delay does not change the state.
unfoldable pub schedule_destroy_if_empty : Room → Room
schedule_destroy_if_empty r =
    if r.destroyed || not (nat_eqb (length r.peers) 0) then r else (elim r.destroy_timer [
      | some _ ↦ r
      | none ↦ record r {
        destroy_generation = generation_after r.destroy_generation;
        destroy_timer = some (generation_after r.destroy_generation);
      }
    ])

-- The critical section of Room.Add behind its guards: the timer is stopped, and its generation
-- is used up.
unfoldable pub enter : Room → Uuid → Room
enter r peer = elim r.destroy_timer [
  | none ↦ record r { peers = insert peer tt r.peers }
  | some _ ↦ record r {
    peers = insert peer tt r.peers;
    destroy_timer = none;
    destroy_generation = generation_after r.destroy_generation;
  }
]

-- Room.Add. A room of the store is known by its UUID; the result lists the other peers.
unfoldable pub add : World → Room → Peer → World × Result (List PeerSnapshot)
add w r p =
    if not (elim (lookup r.name_lower w.table) [ none ↦ false | some id ↦ id == r.id ])
    then (w, err RoomError.room_not_found)
    else if r.destroyed
    then (w, err RoomError.room_not_found)
    else if leb r.max_peers (length r.peers)
    then (w, err RoomError.room_full)
    else (
      put_peer (put_room w (enter r p.id)) (record p { cur_room = some r.id }),
      ok (snapshots_but p.id w.peers (enter r p.id).peers),
    )

-- The first critical section of Room.Remove.
unfoldable pub leave : Room → Uuid → Room
leave r peer = record r { peers = delete peer r.peers }

-- Room.Remove, for a room of the registry: the peer is out, and a room that it leaves empty gets
-- a timer.
unfoldable pub remove : World → Room → Peer → World
remove w r p =
    if not (has p.id r.peers)
    then w
    else (let r' = leave r p.id in
        put_peer
          (put_room w (if nat_eqb (length r'.peers) 0 then schedule_destroy_if_empty r' else r'))
          (record p { cur_room = none }))
