-- ===== src/Room/Lifetime.antt =====
-- The destroy timers of room.go and registry.go: occupied rooms, stopped timers, and armed ones.
use network_ultra_server.Prelude.{
  ℕ, ◌+◌, ◌<◌, ◌≡◌, ◌≢◌, ◌^◌, inl, inr, false, none, some, arith, ==_refl, [], ◌∷◌, length,
  bytes_eq, string_eq,
}
use network_ultra_server.Prelude.Maps.{lookup, lookup-insert, lookup-delete}
use network_ultra_server.Room.State.{Uuid, RoomError, err, Room, Peer, World, RoomListDelta}
use network_ultra_server.Room.Ops.{add, enter, leave, schedule_destroy_if_empty, generation_after}
use network_ultra_server.Room.Registry.{destroy, notify}
use network_ultra_server.Room.Invariant.{RoomOk, Coherent}
use network_ultra_server.Room.Invariant.Rooms.{left}
use network_ultra_server.Room.Invariant.Destroy.{dead, destroy_cases, announced, unpublished}

-- A timer's callback does nothing to a room that has a peer.
pub destroy_occupied :
    (w : World) (r : Room) (generation : ℕ) → 0 < length r.peers → destroy w r generation ≡ w
destroy_occupied w r generation used = elim (destroy_cases w r generation) [
  | inl e ↦ e
  | inr (e, fires) ↦ absurd (omega (arith, fires.3))
]

rearmed :
    (r : Room) (pid : Uuid) {g : ℕ}
    → r.destroy_timer ≡ some g
    → r.destroy_generation ≡ g
    → (left (enter r pid) pid).destroy_timer ≢ none
    → (left (enter r pid) pid).destroy_generation ≡ generation_after (generation_after g)
unfolding enter leave schedule_destroy_if_empty
rearmed r pid timer gen armed = ground arith

-- For a room in order whose timer's generation is below 2 ^ 64 - 2: after a peer came and went,
-- the callback of the timer that its coming stopped changes nothing, though the room may be empty
-- again.
pub stale_timer :
    (w : World) (r : Room) (pid : Uuid) {g : ℕ}
    → RoomOk r
    → r.destroy_timer ≡ some g
    → g + 2 < 2 ^ 64
    → destroy w (left (enter r pid) pid) g ≡ w
stale_timer w r pid {g} okay timer small = elim (destroy_cases w (left (enter r pid) pid) g) [
  | inl e ↦ e
  | inr (e, fires) ↦ absurd (ground (arith, okay.current, rearmed r pid timer, fires))
]

notify_keeps :
    (w : World) (r : Room) (d : RoomListDelta)
    → ((notify w r d).table ≡ w.table) × ((notify w r d).rooms ≡ w.rooms)
unfolding notify
notify_keeps w r d = ground arith

fires_now :
    (w : World) (r : Room) {g : ℕ}
    → RoomOk r
    → lookup r.name_lower w.table ≡ some r.id
    → r.destroyed ≡ false
    → r.destroy_timer ≡ some g
    → destroy w r g ≡ announced w r
unfolding destroy
fires_now w r okay at alive timer = ground (arith, okay.current, okay.idle, at, ==_refl r.id)

-- The callback of the armed timer of a live room in a coherent registry takes the room's name out
-- of the table and leaves the room destroyed, and whoever still holds the room cannot be added to
-- it.
pub armed_timer :
    (w : World) (r : Room) {g : ℕ}
    → Coherent w
    → lookup r.id w.rooms ≡ some r
    → r.destroyed ≡ false
    → r.destroy_timer ≡ some g
    → (lookup r.name_lower (destroy w r g).table ≡ none)
      × (lookup r.id (destroy w r g).rooms ≡ some (dead w r))
      × ((p : Peer)
          → add (destroy w r g) (dead w r) p ≡ (destroy w r g, err RoomError.room_not_found))
unfolding add
armed_timer w r {g} c at_room alive timer =
    let (_, okay, at) = c.stored r.id r at_room in
    let e = fires_now w r okay (at alive) alive timer in
    let (same_table, same_rooms) =
      notify_keeps (unpublished w r) r
        (record { added = []; removed = r.name ∷ []; updated = [] }) in
    rw e (
      ground (
        arith,
        same_table,
        lookup-delete r.name_lower r.name_lower w.table,
        ==_refl r.name_lower,
      ),
      ground (arith, same_rooms, lookup-insert r.id r.id (dead w r) w.rooms, ==_refl r.id),
      λ p. ground arith,
    )
