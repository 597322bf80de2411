-- ===== src/Room/Invariant/Rooms.antt =====
-- What each operation does to one room, under the room's own invariant.
use network_ultra_server.Prelude.{
  ◌≤◌, ◌<◌, ◌≡◌, inl, inr, true, false, none, arith, nat_eqb, if◌then◌else◌, length, bytes_eq,
  Bool-cases,
}
use network_ultra_server.Prelude.Maps.{
  has, insert, delete, Distinct, Distinct-insert, Distinct-delete, length-insert, length-delete-le,
  length-insert-pos, pos_of_has,
}
use network_ultra_server.Room.State.{Uuid, Room}
use network_ultra_server.Room.Ops.{schedule_destroy_if_empty, enter, leave}
use network_ultra_server.Room.Invariant.{RoomOk}

-- All but the two fields of the timer.
pub record Unarmed (r : Room) : Type 0 where
  pub sized : length r.peers ≤ r.max_peers
  pub distinct : Distinct r.peers
  pub alive : r.destroyed ≡ false
  pub unset : r.destroy_timer ≡ none

pub peers-schedule : (r : Room) → (schedule_destroy_if_empty r).peers ≡ r.peers
unfolding schedule_destroy_if_empty
peers-schedule r = ground arith

pub peers-enter : (r : Room) (pid : Uuid) → (enter r pid).peers ≡ insert pid tt r.peers
unfolding enter
peers-enter r pid = ground arith

-- What identifies a room does not change.
abbrev pub SameRoom : Room → Room → Type 0
SameRoom r s =
    (s.id ≡ r.id)
    × (s.name_lower ≡ r.name_lower)
    × (s.destroyed ≡ r.destroyed)
    × (s.max_peers ≡ r.max_peers)

pub schedule-SameRoom : (r : Room) → SameRoom r (schedule_destroy_if_empty r)
unfolding schedule_destroy_if_empty
schedule-SameRoom r = ground arith

pub enter-SameRoom : (r : Room) (pid : Uuid) → SameRoom r (enter r pid)
unfolding enter
enter-SameRoom r pid = ground arith

pub schedule-RoomOk : (r : Room) → Unarmed r → RoomOk (schedule_destroy_if_empty r)
unfolding schedule_destroy_if_empty
schedule-RoomOk r u = record {
  sized = ground (arith, u.sized);
  distinct = rw (peers-schedule r) u.distinct;
  idle = ground arith;
  dead = ground arith;
  current = ground arith;
}

pub enter-RoomOk :
    (r : Room) (pid : Uuid)
    → RoomOk r
    → r.destroyed ≡ false
    → length r.peers < r.max_peers
    → RoomOk (enter r pid)
unfolding enter
enter-RoomOk r pid ok alive room = record {
  sized = ground (arith, length-insert pid tt r.peers);
  distinct = rw (peers-enter r pid) (Distinct-insert pid tt r.peers ok.distinct);
  idle = ground (arith, length-insert-pos pid tt r.peers);
  dead = ground arith;
  current = ground arith;
}

-- The room that a peer leaves, with its timer armed if nobody is left.
abbrev pub left : Room → Uuid → Room
left r pid =
    if nat_eqb (length (leave r pid).peers) 0
    then schedule_destroy_if_empty (leave r pid)
    else leave r pid

pub peers-left : (r : Room) (pid : Uuid) → (left r pid).peers ≡ delete pid r.peers
unfolding leave
peers-left r pid = ground (arith, peers-schedule (record r { peers = delete pid r.peers }))

pub left-SameRoom : (r : Room) (pid : Uuid) → SameRoom r (left r pid)
unfolding leave
left-SameRoom r pid = ground (arith, schedule-SameRoom (record r { peers = delete pid r.peers }))

leave-Unarmed : (r : Room) (pid : Uuid) → RoomOk r → has pid r.peers ≡ true → Unarmed (leave r pid)
unfolding leave
leave-Unarmed r pid ok member = record {
  sized = omega (arith, length-delete-le pid r.peers, ok.sized);
  distinct = Distinct-delete pid r.peers ok.distinct;
  alive = ground (arith, pos_of_has pid r.peers);
  unset = ground (arith, pos_of_has pid r.peers);
}

pub left-RoomOk : (r : Room) (pid : Uuid) → RoomOk r → has pid r.peers ≡ true → RoomOk (left r pid)
left-RoomOk r pid ok member =
    let u = leave-Unarmed r pid ok member in
    elim (Bool-cases (nat_eqb (length (leave r pid).peers) 0)) [
      | inl empty ↦ rw empty (schedule-RoomOk (leave r pid) u)
      | inr more ↦ rw more (record {
        sized = u.sized;
        distinct = u.distinct;
        idle = ground (arith, u.unset);
        dead = ground (arith, u.alive);
        current = inl u.unset;
      })
    ]
