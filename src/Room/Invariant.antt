-- ===== src/Room/Invariant.antt =====
-- What holds of rooms, registry and peers between two operations.
pub mod Rooms
pub mod Create
pub mod Move
pub mod Join
pub mod Leave
pub mod Destroy
pub mod Queued
pub mod Runs
use network_ultra_server.Prelude.{
  ℕ, ◌≤◌, ◌≡◌, ◌⊎◌, String, Bool, true, false, Option, none, some, nat_eqb, length, bytes_eq,
  string_eq,
}
use network_ultra_server.Prelude.Maps.{lookup, has, Distinct}
use network_ultra_server.Room.State.{Uuid, Room, Peer, World}
use network_ultra_server.Room.Ops.{armed}

-- A room never holds more peers than its limit; the timer of a live room is armed exactly while
-- it is empty, with the current generation; a destroyed room is empty and has no timer.
pub record RoomOk (r : Room) : Type 0 where
  pub sized : length r.peers ≤ r.max_peers
  pub distinct : Distinct r.peers
  pub idle : r.destroyed ≡ false → nat_eqb (length r.peers) 0 ≡ armed r.destroy_timer
  pub dead : r.destroyed ≡ true → (length r.peers ≡ 0) × (r.destroy_timer ≡ none)
  pub current : (r.destroy_timer ≡ none) ⊎ (r.destroy_timer ≡ some r.destroy_generation)

-- The table publishes exactly the live rooms, each under its lowercased name and within the
-- limit; and a room's members are exactly the peers whose current room it is.
pub record Coherent (w : World) : Type 0 where
  pub bounded : length w.table ≤ w.max_rooms
  pub published :
      (name : String) (id : Uuid)
      → lookup name w.table ≡ some id
      → (r : Room) × (lookup id w.rooms ≡ some r) × (r.name_lower ≡ name) × (r.destroyed ≡ false)
  pub stored :
      (id : Uuid) (r : Room)
      → lookup id w.rooms ≡ some r
      → (r.id ≡ id) × RoomOk r × (r.destroyed ≡ false → lookup r.name_lower w.table ≡ some id)
  pub members :
      (id : Uuid) (r : Room) (pid : Uuid)
      → lookup id w.rooms ≡ some r
      → has pid r.peers ≡ true
      → (p : Peer) × (lookup pid w.peers ≡ some p) × (p.cur_room ≡ some id)
  pub whereabouts :
      (pid : Uuid) (p : Peer)
      → lookup pid w.peers ≡ some p
      → (p.id ≡ pid)
        × ((id : Uuid)
            → p.cur_room ≡ some id
            → (r : Room) × (lookup id w.rooms ≡ some r) × (has pid r.peers ≡ true))
