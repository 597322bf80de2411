-- ===== src/Room/Invariant/Move.antt =====
-- A peer enters or leaves one room: the step that Add and Remove share.
use network_ultra_server.Prelude.{
  ◌≡◌, sym, ap, subst, ◌∙◌, inl, inr, String, Bool, true, false, none, some, arith, ◌==◌, ==_iff,
  if◌then◌else◌, Bool-cases, bytes_eq, string_eq,
}
use network_ultra_server.Prelude.Maps.{lookup, has, insert, lookup-insert}
use network_ultra_server.Room.State.{Uuid, Room, Peer, World, put_room, put_peer}
use network_ultra_server.Room.Invariant.{RoomOk, Coherent}
use network_ultra_server.Room.Invariant.Rooms.{SameRoom}

-- The peer `p` becomes a member of the room (`inside`) or stops being one.
pub record Moves (w : World) (r r' : Room) (p : Peer) (inside : Bool) : Type 0 where
  pub coherent : Coherent w
  pub at_room : lookup r.id w.rooms ≡ some r
  pub at_peer : lookup p.id w.peers ≡ some p
  pub same : SameRoom r r'
  pub room_ok : RoomOk r'
  pub nowhere_else : (id : Uuid) → p.cur_room ≡ some id → id ≡ r.id
  pub members : (pid : Uuid) → has pid r'.peers ≡ (if p.id == pid then inside else has pid r.peers)

abbrev pub moved : Room → Peer → Bool → Peer
moved r p inside = record p { cur_room = if inside then some r.id else none }

module _ {w : World} {r r' : Room} {p : Peer} {inside : Bool} (m : Moves w r r' p inside) where
  abbrev after : World
  after = put_peer (put_room w r') (moved r p inside)

  room_at :
      (id : Uuid) → lookup id after.rooms ≡ (if r.id == id then some r' else lookup id w.rooms)
  room_at id =
      subst
        (λ k. lookup id (insert k r' w.rooms) ≡ (if r.id == id then some r' else lookup id w.rooms))
        (sym m.same.0) (lookup-insert r.id id r' w.rooms)

  peer_at :
      (pid : Uuid)
      → lookup pid after.peers
        ≡ (if p.id == pid then some (moved r p inside) else lookup pid w.peers)
  peer_at pid = lookup-insert p.id pid (moved r p inside) w.peers

  published :
      (name : String) (id : Uuid)
      → lookup name w.table ≡ some id
      → (q : Room) × (lookup id after.rooms ≡ some q)
        × (q.name_lower ≡ name)
        × (q.destroyed ≡ false)
  published name id h =
      let (q, at, named, alive) = m.coherent.published name id h in
      elim (Bool-cases (r.id == id)) [
        | inl y ↦ (
          r',
          ground (arith, room_at id),
          ground (arith, ==_iff r.id id, m.at_room, m.same),
          ground (arith, ==_iff r.id id, m.at_room, m.same),
        )
        | inr n ↦ (q, ground (arith, room_at id), named, alive)
      ]

  stored :
      (id : Uuid) (q : Room)
      → lookup id after.rooms ≡ some q
      → (q.id ≡ id) × RoomOk q × (q.destroyed ≡ false → lookup q.name_lower w.table ≡ some id)
  stored id q h = elim (Bool-cases (r.id == id)) [
    | inl y ↦
        let e : r' ≡ q = ground (arith, room_at id) in
        let (_, _, named) = m.coherent.stored r.id r m.at_room in
        subst
          (λ (s : Room).
            (s.id ≡ id) × RoomOk s × (s.destroyed ≡ false → lookup s.name_lower w.table ≡ some id))
          e
          (
            m.same.0 ∙ (==_iff r.id id).0 y,
            m.room_ok,
            λ alive. rw m.same.1 (named (sym m.same.2 ∙ alive) ∙ ap some ((==_iff r.id id).0 y)),
          )
    | inr n ↦ m.coherent.stored id q (ground (arith, room_at id))
  ]

  members :
      (id : Uuid) (q : Room) (pid : Uuid)
      → lookup id after.rooms ≡ some q
      → has pid q.peers ≡ true
      → (p0 : Peer) × (lookup pid after.peers ≡ some p0) × (p0.cur_room ≡ some id)
  members id q pid h member = elim (Bool-cases (r.id == id)) [
    | inl y ↦
        let e : r' ≡ q = ground (arith, room_at id) in
        let inside_r' : has pid r'.peers ≡ true =
          subst (λ (s : Room). has pid s.peers ≡ true) (sym e) member in
        elim (Bool-cases (p.id == pid)) [
          | inl it ↦ (
            moved r p inside,
            ground (arith, peer_at pid),
            ground (arith, m.members pid, ==_iff r.id id),
          )
          | inr other ↦
              let (p0, at, cur) =
                m.coherent.members r.id r pid m.at_room (ground (arith, m.members pid)) in
              (p0, ground (arith, peer_at pid), cur ∙ ap some ((==_iff r.id id).0 y))
        ]
    | inr n ↦
        let (p0, at, cur) = m.coherent.members id q pid (ground (arith, room_at id)) member in
        elim (Bool-cases (p.id == pid)) [
          | inl it ↦
              absurd (ground (arith, m.nowhere_else id, ==_iff p.id pid, m.at_peer, ==_iff r.id id))
          | inr other ↦ (p0, ground (arith, peer_at pid), cur)
        ]
  ]

  whereabouts :
      (pid : Uuid) (q : Peer)
      → lookup pid after.peers ≡ some q
      → (q.id ≡ pid)
        × ((id : Uuid)
            → q.cur_room ≡ some id
            → (s : Room) × (lookup id after.rooms ≡ some s) × (has pid s.peers ≡ true))
  whereabouts pid q h = elim (Bool-cases (p.id == pid)) [
    | inl it ↦
        let e : moved r p inside ≡ q = ground (arith, peer_at pid) in
        (
          ground (arith, ap (λ (s : Peer). s.id) e, ==_iff p.id pid),
          λ id cur. (
            r',
            ground (arith, room_at id, ==_iff r.id id, ap (λ (s : Peer). s.cur_room) e),
            ground (arith, m.members pid, ap (λ (s : Peer). s.cur_room) e),
          ),
        )
    | inr other ↦
        let (named, find) = m.coherent.whereabouts pid q (ground (arith, peer_at pid)) in
        (
          named,
          λ id cur.
              let (s, at, member) = find id cur in
              elim (Bool-cases (r.id == id)) [
                | inl y ↦ (
                  r',
                  ground (arith, room_at id),
                  ground (arith, m.members pid, m.at_room, ==_iff r.id id),
                )
                | inr n ↦ (s, ground (arith, room_at id), member)
              ],
        )
  ]

  pub Moves-Coherent : Coherent (put_peer (put_room w r') (moved r p inside))
  Moves-Coherent = record {
    bounded = m.coherent.bounded;
    published = published;
    stored = stored;
    members = members;
    whereabouts = whereabouts;
  }
