-- ===== src/Ws/Disconnect.antt =====
-- The end of a session in the rooms: cleanupPeer.
use network_ultra_server.Prelude.{
  ◌≡◌, refl, ap, ◌∙◌, inl, inr, String, true, false, [], none, some, arith, Bool-cases,
  Option-cases, subst, bytes_eq, string_eq,
}
use network_ultra_server.Prelude.Maps.{lookup, has, lookup-insert_self}
use network_ultra_server.Room.State.{Uuid, Peer, Room, World}
use network_ultra_server.Room.Registry.{notify, publish_update}
use network_ultra_server.Room.Invariant.{Coherent}
use network_ultra_server.Room.Invariant.Leave.{remove_outcome}
use network_ultra_server.Room.Invariant.Runs.{Reach-Coherent}
use network_ultra_server.Ws.State.{Hub, Libraries, broadcast_to_others, Envelope}
use network_ultra_server.Ws.Rooms.{cleanup_peer, current_room, part}
use network_ultra_server.Ws.Refinement.{cleanup_peer-Follows}

peers-publish_update : (w : World) (r : Room) → (publish_update w r).peers ≡ w.peers
unfolding publish_update notify
peers-publish_update w r = ground arith

module _ (lib : Libraries) (h : Hub) (p : Peer) (at_peer : lookup p.id h.world.peers ≡ some p)
    (c : Coherent h.world) where
  at_room : (r : Room) → current_room h.world p ≡ some r → has p.id r.peers ≡ true
  unfolding current_room
  at_room r found = elim (Option-cases p.cur_room) [
    | inl nowhere ↦ absurd (ground arith)
    | inr (id, at) ↦
        let (s, stored, member) = (c.whereabouts p.id p at_peer).1 id at in
        let e : s ≡ r = ground arith in subst (λ (x : Room). has p.id x.peers ≡ true) e member
  ]

  nowhere : current_room h.world p ≡ none → p.cur_room ≡ none
  unfolding current_room
  nowhere lost = elim (Option-cases p.cur_room) [
    | inl free ↦ free
    | inr (id, at) ↦
        let (s, stored, member) = (c.whereabouts p.id p at_peer).1 id at in absurd (ground arith)
  ]

  parted_peer :
      (r : Room) (reason : String)
      → has p.id r.peers ≡ true
      → lookup p.id (part h p r reason).world.peers ≡ some (record p { cur_room = none })
  unfolding part broadcast_to_others
  parted_peer r reason member =
      ap (lookup p.id) (peers-publish_update _ _)
      ∙ (rw (remove_outcome h.world r p, member)
          (lookup-insert_self p.id (record p { cur_room = none }) h.world.peers))

  -- The peer is still known, but in no room.
  outside :
      (reason : String)
      → (q : Peer) × (lookup p.id (cleanup_peer h p reason).world.peers ≡ some q)
        × (q.cur_room ≡ none)
  unfolding cleanup_peer
  outside reason = elim (Option-cases (current_room h.world p)) [
    | inl lost ↦ (p, rw (lost, cleanup_peer) at_peer, nowhere lost)
    | inr (r, found) ↦ (
      record p { cur_room = none },
      rw (found, cleanup_peer) (parted_peer r reason (at_room r found)),
      refl,
    )
  ]

  -- After cleanupPeer of a stored peer in a coherent registry, the peer is stored in no room, no
  -- room lists it, and the registry is coherent.
  pub cleanup_peer_gone :
      (reason : String)
      → ((q : Peer) × (lookup p.id (cleanup_peer h p reason).world.peers ≡ some q)
          × (q.cur_room ≡ none))
        × ((id : Uuid) (r : Room)
            → lookup id (cleanup_peer h p reason).world.rooms ≡ some r
            → has p.id r.peers ≡ false)
        × Coherent (cleanup_peer h p reason).world
  cleanup_peer_gone reason = (outside reason, unlisted, after)
    where
      nothing : Envelope
      nothing = record { type_name = ""; v = 1; id = ""; data_bytes = [] }

      after : Coherent (cleanup_peer h p reason).world
      after =
          Reach-Coherent lib.to_lower c (cleanup_peer-Follows lib h p at_peer nothing 0 c reason)

      unlisted :
          (id : Uuid) (r : Room)
          → lookup id (cleanup_peer h p reason).world.rooms ≡ some r
          → has p.id r.peers ≡ false
      unlisted id r stored = elim (Bool-cases (has p.id r.peers)) [
        | inr n ↦ n
        | inl member ↦
            let (q, at, free) = outside reason in
            let (q', at', inside) = after.members id r p.id stored member in absurd (ground arith)
      ]
