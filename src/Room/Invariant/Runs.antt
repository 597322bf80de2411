-- ===== src/Room/Invariant/Runs.antt =====
-- The registry's steps, and their runs.
use network_ultra_server.Prelude.{
  ℕ, ◌≡◌, refl, String, Option, none, some, arith, ◌==◌, ==_iff, List, if◌then◌else◌, inl, inr,
  Bool-cases, bytes_eq, string_eq, ap,
}
use network_ultra_server.Prelude.Maps.{lookup, insert, lookup-insert}
use network_ultra_server.Room.State.{
  Uuid, Room, Peer, World, Frame, put_peer, put_room, new_registry,
}
use network_ultra_server.Room.Ops.{add, remove, new_peer}
use network_ultra_server.Room.Registry.{create, destroy, publish_update}
use network_ultra_server.Room.Invariant.{Coherent}
use network_ultra_server.Room.Invariant.Create.{create-Coherent, notify-Coherent}
use network_ultra_server.Room.Invariant.Join.{add-Coherent}
use network_ultra_server.Room.Invariant.Leave.{remove-Coherent}
use network_ultra_server.Room.Invariant.Destroy.{destroy-Coherent}
use network_ultra_server.Room.Invariant.Queued.{queue-Coherent}

-- A change of a peer that leaves its room alone: muting, subscribing, a new role.
abbrev pub SamePlace : Peer → Peer → Type 0
SamePlace p q = (q.id ≡ p.id) × (q.cur_room ≡ p.cur_room)

pub touch-Coherent :
    (w : World) (p q : Peer)
    → Coherent w
    → lookup p.id w.peers ≡ some p
    → SamePlace p q
    → Coherent (put_peer w q)
touch-Coherent w p q c at_peer same = record {
  bounded = c.bounded;
  published = c.published;
  stored = c.stored;
  members = λ id r pid h member.
      let (p0, at, cur) = c.members id r pid h member in
      elim (Bool-cases (q.id == pid)) [
        | inl y ↦ (q, ground (arith, peer_at pid), ground (arith, at_peer, at, ==_iff q.id pid))
        | inr n ↦ (p0, ground (arith, peer_at pid), cur)
      ];
  whereabouts = λ pid s h. elim (Bool-cases (q.id == pid)) [
    | inl y ↦
        let e : q ≡ s = ground (arith, peer_at pid) in
        let (named, find) = c.whereabouts p.id p at_peer in
        (
          ground (arith, ap (λ (t : Peer). t.id) e, ==_iff q.id pid),
          λ id cur.
              let (r, at, member) = find id (ground (arith, ap (λ (t : Peer). t.cur_room) e)) in
              (r, at, ground (arith, ==_iff q.id pid)),
        )
    | inr n ↦ c.whereabouts pid s (ground (arith, peer_at pid))
  ];
}
  where
    peer_at :
        (pid : Uuid)
        → lookup pid (insert q.id q w.peers) ≡ (if q.id == pid then some q else lookup pid w.peers)
    peer_at pid = lookup-insert q.id pid q w.peers

pub connect-Coherent :
    (w : World) (p : Peer)
    → Coherent w
    → lookup p.id w.peers ≡ none
    → p.cur_room ≡ none
    → Coherent (put_peer w p)
connect-Coherent w p c unknown free = record {
  bounded = c.bounded;
  published = c.published;
  stored = c.stored;
  members = λ id r pid h member.
      let (p0, at, cur) = c.members id r pid h member in
      (p0, ground (arith, peer_at pid, ==_iff p.id pid), cur);
  whereabouts = λ pid s h. elim (Bool-cases (p.id == pid)) [
    | inl y ↦
        let e : p ≡ s = ground (arith, peer_at pid) in
        (
          ground (arith, ap (λ (t : Peer). t.id) e, ==_iff p.id pid),
          λ id cur. absurd (ground (arith, ap (λ (t : Peer). t.cur_room) e)),
        )
    | inr n ↦ c.whereabouts pid s (ground (arith, peer_at pid))
  ];
}
  where
    peer_at :
        (pid : Uuid)
        → lookup pid (insert p.id p w.peers) ≡ (if p.id == pid then some p else lookup pid w.peers)
    peer_at pid = lookup-insert p.id pid p w.peers

module _ (to_lower : String → String) where
  -- One operation. uuid.New gives a UUID that is in nobody's use; a peer enters a room only from
  -- outside every room, which the WebSocket layer checks first; a timer's callback may run at any
  -- time, with any generation; a room's queue may become whatever it likes.
  pub data Step (w : World) : World → Type 0 where
    connects :
        (id : Uuid) (now : ℕ) (username role : String)
        → lookup id w.peers ≡ none
        → Step w (put_peer w (new_peer id now username role))
    touches : (p q : Peer) → lookup p.id w.peers ≡ some p → SamePlace p q → Step w (put_peer w q)
    creates :
        (id : Uuid) (now : ℕ) (name visibility : String) (hash : Option (List ℕ))
        → lookup id w.rooms ≡ none
        → Step w (create to_lower w id now name visibility hash).0
    adds :
        (r : Room) (p : Peer)
        → lookup r.id w.rooms ≡ some r
        → lookup p.id w.peers ≡ some p
        → p.cur_room ≡ none
        → Step w (add w r p).0
    removes :
        (r : Room) (p : Peer)
        → lookup r.id w.rooms ≡ some r
        → lookup p.id w.peers ≡ some p
        → Step w (remove w r p)
    fires :
        (r : Room) (generation : ℕ) → lookup r.id w.rooms ≡ some r → Step w (destroy w r generation)
    publishes : (r : Room) → Step w (publish_update w r)
    queues :
        (r : Room) (fs : List Frame)
        → lookup r.id w.rooms ≡ some r
        → Step w (put_room w (record r { audio_ch = fs }))

  pub data Reach (w : World) : World → Type 0 where
    here : Reach w w
    next : {u v : World} → Reach w u → Step u v → Reach w v

  publish-Coherent : {w : World} (r : Room) → Coherent w → Coherent (publish_update w r)
  unfolding publish_update
  publish-Coherent {w} r c = notify-Coherent w r _ c

  Step-Coherent : {w u : World} → Step w u → Coherent w → Coherent u
  Step-Coherent {w} (connects id now username role unknown) c =
      connect-Coherent w (new_peer id now username role) c unknown refl
  Step-Coherent {w} (touches p q at_peer same) c = touch-Coherent w p q c at_peer same
  Step-Coherent {w} (creates id now name visibility hash unknown) c =
      create-Coherent to_lower w id now name visibility hash c unknown
  Step-Coherent {w} (adds r p at_room at_peer free) c = add-Coherent w r p c at_room at_peer free
  Step-Coherent {w} (removes r p at_room at_peer) c = remove-Coherent w r p c at_room at_peer
  Step-Coherent {w} (fires r generation at_room) c = destroy-Coherent w r generation c at_room
  Step-Coherent (publishes r) c = publish-Coherent r c
  Step-Coherent {w} (queues r fs at_room) c = queue-Coherent w r fs c at_room

  -- Whatever sequence of connects, creates, adds, removes, peer changes, timer callbacks and
  -- updates runs, a coherent registry stays coherent, where connects and creates come with UUIDs
  -- that are not in use and adds with a stored peer that is in no room: the table publishes
  -- exactly the live rooms under their names and within its limit, no room holds more peers than
  -- its own limit, an empty live room has a timer armed and an occupied one has none, and a room's
  -- members are exactly the peers whose current room it is.
  pub Reach-Coherent : {w u : World} → Coherent w → Reach w u → Coherent u
  Reach-Coherent c here = c
  Reach-Coherent c (next run step) = Step-Coherent step (Reach-Coherent c run)

-- The registry starts out coherent.
pub new_registry-Coherent : (max_rooms max_peers : ℕ) → Coherent (new_registry max_rooms max_peers)
unfolding lookup
new_registry-Coherent max_rooms max_peers = record {
  bounded = omega arith;
  published = λ name id h. absurd (ground arith);
  stored = λ id r h. absurd (ground arith);
  members = λ id r pid h member. absurd (ground arith);
  whereabouts = λ pid p h. absurd (ground arith);
}
