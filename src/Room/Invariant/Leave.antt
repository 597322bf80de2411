-- ===== src/Room/Invariant/Leave.antt =====
-- Room.Remove, under the invariant.
use network_ultra_server.Prelude.{
  ◌≡◌, true, false, none, some, arith, inl, inr, if◌then◌else◌, Bool-cases, bytes_eq,
}
use network_ultra_server.Prelude.Maps.{lookup, has, has-delete}
use network_ultra_server.Room.State.{Room, Peer, World, put_room, put_peer}
use network_ultra_server.Room.Ops.{remove}
use network_ultra_server.Room.Invariant.{Coherent}
use network_ultra_server.Room.Invariant.Rooms.{left, peers-left, left-SameRoom, left-RoomOk}
use network_ultra_server.Room.Invariant.Move.{Moves, Moves-Coherent}

module _ (w : World) (r : Room) (p : Peer) where
  abbrev pub parted : World
  parted = put_peer (put_room w (left r p.id)) (record p { cur_room = none })

  pub remove_outcome : remove w r p ≡ (if has p.id r.peers then parted else w)
  unfolding remove
  remove_outcome = ground arith

  module _ (c : Coherent w) (at_room : lookup r.id w.rooms ≡ some r)
      (at_peer : lookup p.id w.peers ≡ some p) where
    pub member_cur_room : has p.id r.peers ≡ true → p.cur_room ≡ some r.id
    member_cur_room member =
        let (q, at, cur) = c.members r.id r p.id at_room member in ground (arith, at, cur)

    pub leave-Moves : has p.id r.peers ≡ true → Moves w r (left r p.id) p false
    leave-Moves member = record {
      coherent = c;
      at_room = at_room;
      at_peer = at_peer;
      same = left-SameRoom r p.id;
      room_ok = left-RoomOk r p.id (c.stored r.id r at_room).1 member;
      nowhere_else = λ id cur. ground (arith, member_cur_room member);
      members = λ pid. rw (peers-left r p.id) (has-delete p.id pid r.peers);
    }

    -- Remove keeps the registry coherent, for a member and for anybody else.
    pub remove-Coherent : Coherent (remove w r p)
    remove-Coherent = rw remove_outcome (elim (Bool-cases (has p.id r.peers)) [
      | inl member ↦ rw member (Moves-Coherent (leave-Moves member))
      | inr stranger ↦ rw stranger c
    ])
