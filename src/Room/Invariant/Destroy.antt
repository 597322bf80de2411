-- ===== src/Room/Invariant/Destroy.antt =====
-- The callback of a destroy timer, under the invariant.
use network_ultra_server.Prelude.{
  ℕ, ◌≡◌, ◌≢◌, refl, ◌⊎◌, inl, inr, String, true, false, none, some, arith, ◌==◌, ==_iff, [], ◌∷◌,
  if◌then◌else◌, length, Bool-cases, bytes_eq, string_eq, sym, subst,
}
use network_ultra_server.Prelude.Maps.{
  lookup, has, delete, lookup-insert, lookup-delete, length-delete-le, pos_of_has,
}
use network_ultra_server.Room.State.{Uuid, Room, Peer, World, put_room}
use network_ultra_server.Room.Ops.{generation_after}
use network_ultra_server.Room.Registry.{destroy, notify}
use network_ultra_server.Room.Invariant.{RoomOk, Coherent}
use network_ultra_server.Room.Invariant.Create.{notify-Coherent}

module _ (w : World) (r : Room) where
  abbrev pub dead : Room
  dead = record r {
    destroyed = true;
    destroy_timer = none;
    destroy_generation = generation_after r.destroy_generation;
    audio_ch = [];
  }

  abbrev pub unpublished : World
  unpublished = put_room (record w { table = delete r.name_lower w.table }) dead

  abbrev pub announced : World
  announced = notify unpublished r (record { added = []; removed = r.name ∷ []; updated = [] })

  -- When a timer's callback destroys the room: only if the room is empty and the timer is the one
  -- that is armed.
  abbrev pub Fires : ℕ → Type 0
  Fires generation =
      (r.destroyed ≡ false)
      × (r.destroy_timer ≢ none)
      × (r.destroy_generation ≡ generation)
      × (length r.peers ≡ 0)

  pub destroy_cases :
      (generation : ℕ)
      → (destroy w r generation ≡ w) ⊎ ((destroy w r generation ≡ announced) × Fires generation)
  unfolding destroy
  destroy_cases generation = ground arith

  module _ (c : Coherent w) (at_room : lookup r.id w.rooms ≡ some r) (alive : r.destroyed ≡ false)
      (vacant : length r.peers ≡ 0) where
    room_at :
        (id : Uuid)
        → lookup id unpublished.rooms ≡ (if r.id == id then some dead else lookup id w.rooms)
    room_at id = lookup-insert r.id id dead w.rooms

    name_at :
        (name : String)
        → lookup name unpublished.table
          ≡ (if r.name_lower == name then none else lookup name w.table)
    name_at name = lookup-delete r.name_lower name w.table

    here : lookup r.name_lower w.table ≡ some r.id
    here = (c.stored r.id r at_room).2 alive

    empty : (pid : Uuid) → has pid r.peers ≡ true → ⊥
    empty pid h = omega (arith, pos_of_has pid r.peers h)

    published :
        (name : String) (id : Uuid)
        → lookup name unpublished.table ≡ some id
        → (q : Room) × (lookup id unpublished.rooms ≡ some q)
          × (q.name_lower ≡ name)
          × (q.destroyed ≡ false)
    published name id h =
        let (q, at, named, live) = c.published name id (ground (arith, name_at name)) in
        (
          q,
          ground
              (arith, room_at id, name_at name, at_room, ==_iff r.id id, ==_iff r.name_lower name),
          named,
          live,
        )

    dead-RoomOk : RoomOk dead
    dead-RoomOk = record {
      sized = omega (arith, vacant);
      distinct = (c.stored r.id r at_room).1.distinct;
      idle = ground arith;
      dead = λ _. (vacant, refl);
      current = inl refl;
    }

    stored :
        (id : Uuid) (q : Room)
        → lookup id unpublished.rooms ≡ some q
        → (q.id ≡ id)
          × RoomOk q
          × (q.destroyed ≡ false → lookup q.name_lower unpublished.table ≡ some id)
    stored id q h = elim (Bool-cases (r.id == id)) [
      | inl y ↦
          let e : dead ≡ q = ground (arith, room_at id) in
          subst
            (λ (s : Room).
              (s.id ≡ id)
              × RoomOk s
              × (s.destroyed ≡ false → lookup s.name_lower unpublished.table ≡ some id))
            e ((==_iff r.id id).0 y, dead-RoomOk, λ live. absurd (cc))
      | inr n ↦
          let (named, okay, at) = c.stored id q (ground (arith, room_at id)) in
          (
            named,
            okay,
            λ live. ground (
              arith,
              at live,
              name_at q.name_lower,
              here,
              ==_iff r.name_lower q.name_lower,
              ==_iff r.id id,
            ),
          )
    ]

    members :
        (id : Uuid) (q : Room) (pid : Uuid)
        → lookup id unpublished.rooms ≡ some q
        → has pid q.peers ≡ true
        → (p : Peer) × (lookup pid w.peers ≡ some p) × (p.cur_room ≡ some id)
    members id q pid h member = elim (Bool-cases (r.id == id)) [
      | inl y ↦
          let e : dead ≡ q = ground (arith, room_at id) in
          absurd (empty pid (subst (λ (s : Room). has pid s.peers ≡ true) (sym e) member))
      | inr n ↦ c.members id q pid (ground (arith, room_at id)) member
    ]

    whereabouts :
        (pid : Uuid) (p : Peer)
        → lookup pid w.peers ≡ some p
        → (p.id ≡ pid)
          × ((id : Uuid)
              → p.cur_room ≡ some id
              → (s : Room) × (lookup id unpublished.rooms ≡ some s) × (has pid s.peers ≡ true))
    whereabouts pid p h =
        let (named, find) = c.whereabouts pid p h in
        (
          named,
          λ id cur.
              let (s, at, member) = find id cur in
              elim (Bool-cases (r.id == id)) [
                | inl y ↦
                    let e : r ≡ s = ground (arith, at_room, ==_iff r.id id) in
                    absurd (empty pid (subst (λ (q : Room). has pid q.peers ≡ true) (sym e) member))
                | inr n ↦ (s, ground (arith, room_at id), member)
              ],
        )

    unpublished-Coherent : Coherent unpublished
    unpublished-Coherent = record {
      bounded = omega (arith, length-delete-le r.name_lower w.table, c.bounded);
      published = published;
      stored = stored;
      members = members;
      whereabouts = whereabouts;
    }

  -- A timer's callback keeps the registry coherent, be it the armed timer's or a stale one's.
  pub destroy-Coherent :
      (generation : ℕ)
      → Coherent w
      → lookup r.id w.rooms ≡ some r
      → Coherent (destroy w r generation)
  destroy-Coherent generation c at_room = elim (destroy_cases generation) [
    | inl e ↦ rw e c
    | inr (e, fires) ↦
        rw e (notify-Coherent unpublished r _ (unpublished-Coherent c at_room fires.0 fires.3))
  ]
