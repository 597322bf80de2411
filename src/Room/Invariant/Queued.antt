-- ===== src/Room/Invariant/Queued.antt =====
-- The audio queue, under the invariant.
use network_ultra_server.Prelude.{
  ◌≡◌, List, some, arith, ◌==◌, ==_iff, if◌then◌else◌, inl, inr, Bool-cases, bytes_eq, string_eq,
  subst, sym, true, false,
}
use network_ultra_server.Prelude.Maps.{lookup, lookup-insert, has}
use network_ultra_server.Room.State.{Uuid, Room, Frame, World, put_room}
use network_ultra_server.Room.Invariant.{Coherent, RoomOk}

module _ (w : World) (r : Room) (fs : List Frame) where
  abbrev pub requeued : Room
  requeued = record r { audio_ch = fs }

  room_at :
      (id : Uuid)
      → lookup id (put_room w requeued).rooms
        ≡ (if r.id == id then some requeued else lookup id w.rooms)
  room_at id = lookup-insert r.id id requeued w.rooms

  requeued-RoomOk : RoomOk r → RoomOk requeued
  requeued-RoomOk ok = record {
    sized = ok.sized;
    distinct = ok.distinct;
    idle = ok.idle;
    dead = ok.dead;
    current = ok.current;
  }

  pub queue-Coherent : Coherent w → lookup r.id w.rooms ≡ some r → Coherent (put_room w requeued)
  queue-Coherent c at_room = record {
    bounded = c.bounded;
    published = λ name id h.
        let (s, at, named, alive) = c.published name id h in
        elim (Bool-cases (r.id == id)) [
          | inl y ↦
              let e : s ≡ r = ground (arith, ==_iff r.id id) in
              (
                requeued,
                ground (arith, room_at id),
                subst (λ (x : Room). x.name_lower ≡ name) e named,
                subst (λ (x : Room). x.destroyed ≡ false) e alive,
              )
          | inr n ↦ (s, ground (arith, room_at id), named, alive)
        ];
    stored = λ id s h. elim (Bool-cases (r.id == id)) [
      | inl y ↦
          let e : requeued ≡ s = ground (arith, room_at id) in
          let (named, ok, found) = c.stored r.id r at_room in
          subst
            (λ (x : Room).
              (x.id ≡ id)
              × RoomOk x
              × (x.destroyed ≡ false → lookup x.name_lower w.table ≡ some id))
            e
            (
              (==_iff r.id id).0 y,
              requeued-RoomOk ok,
              subst (λ (x : Uuid). r.destroyed ≡ false → lookup r.name_lower w.table ≡ some x)
                  ((==_iff r.id id).0 y) found,
            )
      | inr n ↦ c.stored id s (ground (arith, room_at id))
    ];
    members = λ id s pid h member. elim (Bool-cases (r.id == id)) [
      | inl y ↦
          let e : requeued ≡ s = ground (arith, room_at id) in
          c.members id r pid (ground (arith, ==_iff r.id id))
            (subst (λ (x : Room). has pid x.peers ≡ true) (sym e) member)
      | inr n ↦ c.members id s pid (ground (arith, room_at id)) member
    ];
    whereabouts = λ pid p h.
        let (named, find) = c.whereabouts pid p h in
        (
          named,
          λ id cur.
              let (s, at, member) = find id cur in
              elim (Bool-cases (r.id == id)) [
                | inl y ↦
                    let e : s ≡ r = ground (arith, ==_iff r.id id) in
                    (
                      requeued,
                      ground (arith, room_at id),
                      subst (λ (x : Room). has pid x.peers ≡ true) e member,
                    )
                | inr n ↦ (s, ground (arith, room_at id), member)
              ],
        );
  }
