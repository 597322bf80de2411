-- ===== src/Room/Invariant/Create.antt =====
-- Registry.Create, under the invariant.
use network_ultra_server.Prelude.{
  ℕ, ◌≤◌, ◌<◌, ◌≡◌, refl, ◌⊎◌, inl, inr, String, true, false, Option, none, some, arith, ◌==◌,
  ==_iff, List, [], ◌∷◌, ◌++◌, if◌then◌else◌, length, Bool-cases, bytes_eq, string_eq, ap, subst,
}
use network_ultra_server.Prelude.Maps.{
  lookup, has, insert, lookup-insert, length-insert, absent_of_has, pos_of_has,
}
use network_ultra_server.Room.State.{Uuid, RoomError, ok, err, Room, RoomListDelta, World, put_room}
use network_ultra_server.Room.Ops.{schedule_destroy_if_empty}
use network_ultra_server.Room.Registry.{create, new_room, notify, entry_of}
use network_ultra_server.Room.Invariant.{RoomOk, Coherent}
use network_ultra_server.Room.Invariant.Rooms.{schedule-RoomOk}

notify_cases :
    (w : World) (r : Room) (d : RoomListDelta)
    → (notify w r d ≡ w) ⊎ (notify w r d ≡ record w { deltas = w.deltas ++ d ∷ [] })
unfolding notify
notify_cases w r d = ground arith

-- The deltas are no part of what is coherent.
pub notify-Coherent :
    (w : World) (r : Room) (d : RoomListDelta) → Coherent w → Coherent (notify w r d)
notify-Coherent w r d c = elim (notify_cases w r d) [
  | inl e ↦ rw e c
  | inr e ↦ rw e (record {
    bounded = c.bounded;
    published = c.published;
    stored = c.stored;
    members = c.members;
    whereabouts = c.whereabouts;
  })
]

-- A room, alive and empty, under a name that is not taken and a UUID that is new.
pub record Publishes (w : World) (r : Room) : Type 0 where
  pub coherent : Coherent w
  pub unknown : lookup r.id w.rooms ≡ none
  pub free : lookup r.name_lower w.table ≡ none
  pub room : length w.table < w.max_rooms
  pub room_ok : RoomOk r
  pub alive : r.destroyed ≡ false
  pub vacant : r.peers ≡ []

module _ {w : World} {r : Room} (m : Publishes w r) where
  abbrev after : World
  after = put_room (record w { table = insert r.name_lower r.id w.table }) r

  room_at : (id : Uuid) → lookup id after.rooms ≡ (if r.id == id then some r else lookup id w.rooms)
  room_at id = lookup-insert r.id id r w.rooms

  name_at :
      (name : String)
      → lookup name after.table ≡ (if r.name_lower == name then some r.id else lookup name w.table)
  name_at name = lookup-insert r.name_lower name r.id w.table

  -- The new UUID is in nobody's way.
  other : (id : Uuid) (q : Room) → lookup id w.rooms ≡ some q → lookup id after.rooms ≡ some q
  other id q h = ground (arith, room_at id, m.unknown, ==_iff r.id id)

  published :
      (name : String) (id : Uuid)
      → lookup name after.table ≡ some id
      → (q : Room) × (lookup id after.rooms ≡ some q)
        × (q.name_lower ≡ name)
        × (q.destroyed ≡ false)
  published name id h = elim (Bool-cases (r.name_lower == name)) [
    | inl y ↦ (
      r,
      ground (arith, name_at name, room_at id, ==_iff r.id id),
      (==_iff r.name_lower name).0 y,
      m.alive,
    )
    | inr n ↦
        let (q, at, named, alive) = m.coherent.published name id (ground (arith, name_at name)) in
        (q, other id q at, named, alive)
  ]

  stored :
      (id : Uuid) (q : Room)
      → lookup id after.rooms ≡ some q
      → (q.id ≡ id) × RoomOk q × (q.destroyed ≡ false → lookup q.name_lower after.table ≡ some id)
  stored id q h = elim (Bool-cases (r.id == id)) [
    | inl y ↦
        let e : r ≡ q = ground (arith, room_at id) in
        subst
          (λ (s : Room).
            (s.id ≡ id)
            × RoomOk s
            × (s.destroyed ≡ false → lookup s.name_lower after.table ≡ some id))
          e
          (
            (==_iff r.id id).0 y,
            m.room_ok,
            λ alive.
                ground
                  (arith, name_at r.name_lower, ==_iff r.id id, ==_iff r.name_lower r.name_lower),
          )
    | inr n ↦
        let (named, okay, at) = m.coherent.stored id q (ground (arith, room_at id)) in
        (
          named,
          okay,
          λ alive.
              ground
                (arith, at alive, name_at q.name_lower, m.free, ==_iff r.name_lower q.name_lower),
        )
  ]

  -- The new room has no member.
  old :
      (id : Uuid) (q : Room) (pid : Uuid)
      → lookup id after.rooms ≡ some q
      → has pid q.peers ≡ true
      → lookup id w.rooms ≡ some q
  old id q pid h member = elim (Bool-cases (r.id == id)) [
    | inl y ↦
        let e : r ≡ q = ground (arith, room_at id) in
        absurd (
          omega (
            arith,
            pos_of_has pid q.peers member,
            ap (λ (s : Room). length s.peers) e,
            ap length m.vacant,
          ))
    | inr n ↦ ground (arith, room_at id)
  ]

  pub Publishes-Coherent :
      Coherent (put_room (record w { table = insert r.name_lower r.id w.table }) r)
  Publishes-Coherent = record {
    bounded = ground (arith, m.room, length-insert r.name_lower r.id w.table);
    published = published;
    stored = stored;
    members = λ id q pid h member. m.coherent.members id q pid (old id q pid h member) member;
    whereabouts = λ pid p h.
        let (named, find) = m.coherent.whereabouts pid p h in
        (named, λ id cur. let (s, at, member) = find id cur in (s, other id s at, member));
  }

module _ (to_lower : String → String) (w : World) (id : Uuid) (now : ℕ) (name visibility : String)
    (hash : Option (List ℕ)) where
  abbrev pub made : Room
  made = schedule_destroy_if_empty (new_room w id now name (to_lower name) visibility hash)

  abbrev announced : World
  announced =
      notify (put_room (record w { table = insert (to_lower name) id w.table }) made) made
        (record { added = entry_of made ∷ []; removed = []; updated = [] })

  pub create_cases :
      ((create to_lower w id now name visibility hash ≡ (w, err RoomError.empty_name))
        × (name ≡ ""))
      ⊎ ((create to_lower w id now name visibility hash ≡ (w, err RoomError.room_name_taken))
          × (has (to_lower name) w.table ≡ true))
      ⊎ ((create to_lower w id now name visibility hash ≡ (w, err RoomError.server_full))
          × (w.max_rooms ≤ length w.table))
      ⊎ ((create to_lower w id now name visibility hash ≡ (announced, ok made))
          × (has (to_lower name) w.table ≡ false)
          × (length w.table < w.max_rooms))
  unfolding create
  create_cases = ground (arith, ==_iff name "")

  pub made_lem :
      (made.id ≡ id)
      × (made.name_lower ≡ to_lower name)
      × (made.destroyed ≡ false)
      × (made.peers ≡ [])
      × (made.name ≡ name)
  unfolding new_room schedule_destroy_if_empty
  made_lem = (refl, refl, refl, refl, refl)

  made-RoomOk : RoomOk made
  unfolding new_room
  made-RoomOk =
      schedule-RoomOk (new_room w id now name (to_lower name) visibility hash)
        (record { sized = omega arith; distinct = tt; alive = refl; unset = refl })

  -- Whatever its outcome, Create keeps the registry coherent.
  pub create-Coherent :
      Coherent w
      → lookup id w.rooms ≡ none
      → Coherent (create to_lower w id now name visibility hash).0
  unfolding new_room schedule_destroy_if_empty
  create-Coherent c unknown = elim create_cases [
    | inl (e, _) ↦ rw e c
    | inr (inl (e, _)) ↦ rw e c
    | inr (inr (inl (e, _))) ↦ rw e c
    | inr (inr (inr (e, free, room))) ↦ rw e (
        notify-Coherent _ made _ (
          Publishes-Coherent {w = w} {r = made} (record {
            coherent = c;
            unknown = unknown;
            free = absent_of_has (to_lower name) w.table free;
            room = room;
            room_ok = made-RoomOk;
            alive = refl;
            vacant = refl;
          })))
  ]
