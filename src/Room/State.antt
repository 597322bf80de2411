-- ===== src/Room/State.antt =====
-- The state of internal/room: peer.go's Peer, room.go's Room, registry.go's Registry.
-- Shared objects live in two stores, keyed by the UUID that each gets when it is made and that
-- tells its pointer from every other. Each critical section of the source is one step.
use network_ultra_server.Prelude.{
  ℕ, ◌≡◌, ◌⊎◌, inl, inr, refl, String, Bool, false, List, [], Option, bytes_eq,
}
use network_ultra_server.Prelude.Maps.{Map, insert}

-- The 16 bytes of a uuid.UUID.
abbrev pub Uuid : Type 0
Uuid = List ℕ

pub data RoomError : Type 0 where
  room_full bad_password room_name_taken server_full room_not_found empty_name : RoomError
  password_too_long hashing_failed : RoomError

pub data Result {ℓ} (A : Type ℓ) : Type ℓ where
  ok : A → Result A
  err : RoomError → Result A

-- `subscribed` is none for "subscribe to all". `send` tells whether a WebSocket sender is
-- attached and `udp_send` whether a UDP sender is.
pub record Peer : Type 0 where
  pub id : Uuid
  pub username : String
  pub role : String
  pub joined_at : ℕ
  pub remote_ip : String
  pub muted : Bool
  pub subscribed : Option (Map Uuid (Unit {0}))
  pub send : Bool
  pub udp_send : Bool
  pub cur_room : Option Uuid

-- `done` is the callback of a frame, by a number that says which; none is Go's nil.
pub record Frame : Type 0 where
  pub source_peer_id : Uuid
  pub payload : List ℕ
  pub done : Option ℕ

-- `peers` holds the keys of Go's map: the peer of a key is the one in the store. `destroy_timer`
-- is the generation with which the current timer was made.
pub record Room : Type 0 where
  pub id : Uuid
  pub name : String
  pub name_lower : String
  pub visibility : String
  pub has_password : Bool
  pub password_hash : Option (List ℕ)
  pub max_peers : ℕ
  pub created_at : ℕ
  pub peers : Map Uuid (Unit {0})
  pub audio_ch : List Frame
  pub destroy_timer : Option ℕ
  pub destroy_generation : ℕ
  pub destroyed : Bool

pub record PeerSnapshot : Type 0 where
  pub id : Uuid
  pub username : String
  pub role : String
  pub muted : Bool
  pub joined_at : ℕ

pub record RoomListEntry : Type 0 where
  pub room_name : String
  pub peer_count : ℕ
  pub max_peers : ℕ
  pub has_password : Bool
  pub created_at : ℕ

pub record RoomListDelta : Type 0 where
  pub added : List RoomListEntry
  pub removed : List String
  pub updated : List RoomListEntry

-- The registry, the two stores, and the deltas that the listener has been called with so far.
pub record World : Type 0 where
  pub max_rooms : ℕ
  pub max_peers_per_room : ℕ
  pub table : Map String Uuid
  pub listening : Bool
  pub rooms : Map Uuid Room
  pub peers : Map Uuid Peer
  pub deltas : List RoomListDelta

-- registry.go, NewRegistry
abbrev pub new_registry : ℕ → ℕ → World
new_registry max_rooms max_peers_per_room = record {
  max_rooms = max_rooms;
  max_peers_per_room = max_peers_per_room;
  table = [];
  listening = false;
  rooms = [];
  peers = [];
  deltas = [];
}

abbrev pub put_room : World → Room → World
put_room w r = record w { rooms = insert r.id r w.rooms }

abbrev pub put_peer : World → Peer → World
put_peer w p = record w { peers = insert p.id p w.peers }

pub Result-cases {ℓ} :
    {A : Type ℓ} (r : Result A) → ((e : RoomError) × (r ≡ err e)) ⊎ ((a : A) × (r ≡ ok a))
Result-cases (ok a) = inr (a, refl)
Result-cases (err e) = inl (e, refl)
