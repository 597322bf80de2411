-- ===== src/Room/Invariant/Join.antt =====
-- Room.Add, under the invariant.
use network_ultra_server.Prelude.{
  ◌≤◌, ◌<◌, ◌≡◌, ◌⊎◌, inl, inr, true, false, none, some, arith, ==_refl, leb, if◌then◌else◌, length,
  bytes_eq, string_eq,
}
use network_ultra_server.Prelude.Maps.{lookup, has-insert}
use network_ultra_server.Room.State.{RoomError, ok, err, Room, Peer, World, put_room, put_peer}
use network_ultra_server.Room.Ops.{enter, add, snapshots_but}
use network_ultra_server.Room.Invariant.{Coherent}
use network_ultra_server.Room.Invariant.Rooms.{peers-enter, enter-SameRoom, enter-RoomOk}
use network_ultra_server.Room.Invariant.Move.{Moves, Moves-Coherent}

module _ (w : World) (r : Room) (p : Peer) where
  abbrev pub joined : World
  joined = put_peer (put_room w (enter r p.id)) (record p { cur_room = some r.id })

  module _ (c : Coherent w) (at_room : lookup r.id w.rooms ≡ some r) where
    -- In a coherent registry, adding a peer to a stored room is refused as not found if the room
    -- is destroyed and as full if it is full, changing nothing, and otherwise takes the peer in
    -- and returns the other peers.
    pub add_outcome : add w r p ≡ (
        if r.destroyed
        then (w, err RoomError.room_not_found)
        else if leb r.max_peers (length r.peers)
        then (w, err RoomError.room_full)
        else (joined, ok (snapshots_but p.id w.peers (enter r p.id).peers)))
    unfolding add
    add_outcome =
        ground (arith, (c.stored r.id r at_room).2, ==_refl r.id, c.published r.name_lower r.id)

    add_cases :
        ((add w r p ≡ (w, err RoomError.room_not_found)) × (r.destroyed ≡ true))
        ⊎ ((add w r p ≡ (w, err RoomError.room_full)) × (r.max_peers ≤ length r.peers))
        ⊎ ((add w r p ≡ (joined, ok (snapshots_but p.id w.peers (enter r p.id).peers)))
            × (r.destroyed ≡ false)
            × (length r.peers < r.max_peers))
    add_cases = ground (arith, add_outcome)

    module _ (at_peer : lookup p.id w.peers ≡ some p) (free : p.cur_room ≡ none) where
      join-Moves :
          r.destroyed ≡ false → length r.peers < r.max_peers → Moves w r (enter r p.id) p true
      join-Moves alive room = record {
        coherent = c;
        at_room = at_room;
        at_peer = at_peer;
        same = enter-SameRoom r p.id;
        room_ok = enter-RoomOk r p.id (c.stored r.id r at_room).1 alive room;
        nowhere_else = λ id cur. ground arith;
        members = λ pid. rw (peers-enter r p.id) (has-insert p.id pid tt r.peers);
      }

      -- Whether it lets the peer in or not, Add keeps the registry coherent.
      pub add-Coherent : Coherent (add w r p).0
      add-Coherent = elim add_cases [
        | inl (e, _) ↦ rw e c
        | inr (inl (e, _)) ↦ rw e c
        | inr (inr (e, alive, room)) ↦ rw e (Moves-Coherent (join-Moves alive room))
      ]
