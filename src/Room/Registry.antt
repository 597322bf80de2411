-- ===== src/Room/Registry.antt =====
-- internal/room/registry.go: rooms are published under their lowercased names.
use network_ultra_server.Prelude.{
  ℕ, ◌+◌, String, Bool, true, false, ◌&&◌, ◌||◌, not, List, [], ◌∷◌, ◌++◌, Option, none, some, ◌==◌,
  nat_eqb, leb, if◌then◌else◌, length, bytes_eq, string_eq,
}
use network_ultra_server.Prelude.Maps.{Map, lookup, insert, delete, has}
use network_ultra_server.Room.State.{
  Uuid, RoomError, Result, ok, err, Room, RoomListEntry, RoomListDelta, World, put_room,
}
use network_ultra_server.Room.Ops.{schedule_destroy_if_empty, generation_after, peer_count, armed}

unfoldable pub entry_of : Room → RoomListEntry
entry_of r = record {
  room_name = r.name;
  peer_count = peer_count r;
  max_peers = r.max_peers;
  has_password = r.has_password;
  created_at = r.created_at;
}

abbrev pub is_public : Room → Bool
is_public r = r.visibility == "public"

-- `if visibility == "public" && cb != nil { cb(delta) }`
unfoldable pub notify : World → Room → RoomListDelta → World
notify w r delta =
    if is_public r && w.listening then record w { deltas = w.deltas ++ delta ∷ [] } else w

abbrev pub set_delta_listener : World → Bool → World
set_delta_listener w on = record w { listening = on }

is_some : Option (List ℕ) → Bool
is_some none = false
is_some (some _) = true

-- The room that Create makes.
unfoldable pub new_room : World → Uuid → ℕ → String → String → String → Option (List ℕ) → Room
unfolding is_some
new_room w id now name name_lower visibility password_hash = record {
  id = id;
  name = name;
  name_lower = name_lower;
  visibility = visibility;
  has_password = is_some password_hash;
  password_hash = password_hash;
  max_peers = w.max_peers_per_room;
  created_at = now;
  peers = [];
  audio_ch = [];
  destroy_timer = none;
  destroy_generation = 0;
  destroyed = false;
}

-- strings.ToLower is an argument: it stands for Unicode's tables.
module _ (to_lower : String → String) where
  -- The UUID and the time are uuid.New's and time.Now's results.
  unfoldable pub create : World → Uuid → ℕ → String → String → Option (List ℕ) → World × Result Room
  create w id now name visibility password_hash =
      if name == ""
      then (w, err RoomError.empty_name)
      else if has (to_lower name) w.table
      then (w, err RoomError.room_name_taken)
      else if leb w.max_rooms (length w.table)
      then (w, err RoomError.server_full)
      else (let room =
            schedule_destroy_if_empty
              (new_room w id now name (to_lower name) visibility password_hash) in
          (
            notify (put_room (record w { table = insert (to_lower name) id w.table }) room) room
                (record { added = entry_of room ∷ []; removed = []; updated = [] }),
            ok room,
          ))

  unfoldable pub find : World → String → Option Room
  find w name = elim (lookup (to_lower name) w.table) [ none ↦ none | some id ↦ lookup id w.rooms ]

-- The callback of a timer that was made with `generation`; `r` is the room's present state. The
-- forwarder is closed: what its queue still holds is dropped.
unfoldable pub destroy : World → Room → ℕ → World
destroy w r generation =
    if not (elim (lookup r.name_lower w.table) [ none ↦ false | some id ↦ id == r.id ])
    then w
    else if r.destroyed
        || not (armed r.destroy_timer)
        || not (nat_eqb r.destroy_generation generation)
        || not (nat_eqb (length r.peers) 0)
    then w
    else (let dead = record r {
      destroyed = true;
      destroy_timer = none;
      destroy_generation = generation_after r.destroy_generation;
      audio_ch = [];
    } in
        notify (put_room (record w { table = delete r.name_lower w.table }) dead) r
          (record { added = []; removed = r.name ∷ []; updated = [] }))

rooms_of : World → Map String Uuid → List Room
rooms_of w [] = []
rooms_of w ((_, id) ∷ rest) =
    let others = rooms_of w rest in elim (lookup id w.rooms) [ none ↦ others | some r ↦ r ∷ others ]

public_entries : List Room → List RoomListEntry
unfolding entry_of
public_entries [] = []
public_entries (r ∷ rs) =
    let others = public_entries rs in if is_public r then entry_of r ∷ others else others

unfoldable pub public_list : World → List RoomListEntry
unfolding rooms_of public_entries
public_list w = public_entries (rooms_of w w.table)

unfoldable pub publish_update : World → Room → World
publish_update w r = notify w r (record { added = []; removed = []; updated = entry_of r ∷ [] })

abbrev pub count_rooms : World → ℕ
count_rooms w = length w.table

sum_peers : List Room → ℕ
sum_peers [] = 0
sum_peers (r ∷ rs) = peer_count r + sum_peers rs

unfoldable pub count_peers : World → ℕ
unfolding rooms_of sum_peers
count_peers w = sum_peers (rooms_of w w.table)
