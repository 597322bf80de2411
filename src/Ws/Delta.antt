-- ===== src/Ws/Delta.antt =====
-- internal/ws/delta.go: the broker that tells subscribers how the list of public rooms changed. A
-- subscriber's send function stands for itself, and publishing returns which of them are called.
pub mod Delivery
mod Tests
use network_ultra_server.Prelude.{ℕ, String, Bool, List, [], ◌∷◌, Option, none, some, ◌/◌, bytes_eq}
use network_ultra_server.Prelude.Maps.{Map, insert, delete}
use network_ultra_server.Room.State.{Uuid, RoomListEntry, RoomListDelta}

pub record DeltaBroker {ℓ} (Send : Type ℓ) : Type ℓ where
  pub subscribers : Map Uuid Send

-- proto.RoomListEntry, whose time is in milliseconds.
pub record ListedRoom : Type 0 where
  pub room_name : String
  pub peer_count : ℕ
  pub max_peers : ℕ
  pub has_password : Bool
  pub created_at : ℕ

pub record RoomListDeltaData : Type 0 where
  pub added : List ListedRoom
  pub removed : List String
  pub updated : List ListedRoom

abbrev pub listed_room : RoomListEntry → ListedRoom
listed_room e = record {
  room_name = e.room_name;
  peer_count = e.peer_count;
  max_peers = e.max_peers;
  has_password = e.has_password;
  created_at = e.created_at / 1000000;
}

abbrev pub listed_rooms : List RoomListEntry → List ListedRoom
listed_rooms [] = []
listed_rooms (e ∷ es) = listed_room e ∷ listed_rooms es

-- What is encoded.
abbrev pub delta_data : RoomListDelta → RoomListDeltaData
delta_data delta = record {
  added = listed_rooms delta.added;
  removed = delta.removed;
  updated = listed_rooms delta.updated;
}

module _ {ℓ} {Send : Type ℓ} where
  abbrev pub new_delta_broker : DeltaBroker Send
  new_delta_broker = record { subscribers = [] }

  unfoldable pub subscribe : DeltaBroker Send → Uuid → Send → DeltaBroker Send
  subscribe b peer_id send = record { subscribers = insert peer_id send b.subscribers }

  unfoldable pub unsubscribe : DeltaBroker Send → Uuid → DeltaBroker Send
  unsubscribe b peer_id = record { subscribers = delete peer_id b.subscribers }

  -- The loops over the subscribers: each is called with the body.
  abbrev pub calls_of : Map Uuid Send → List ℕ → List (Send × List ℕ)
  calls_of [] body = []
  calls_of ((_, s) ∷ subs) body = (s, body) ∷ calls_of subs body

  -- Publish; `encode` is the JSON library's, and none its error.
  unfoldable pub publish :
      (RoomListDeltaData → Option (List ℕ))
      → DeltaBroker Send
      → RoomListDelta
      → List (Send × List ℕ)
  publish encode b delta = elim (encode (delta_data delta)) [
    | none ↦ []
    | some body ↦ calls_of b.subscribers body
  ]
