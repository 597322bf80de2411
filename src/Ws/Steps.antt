-- ===== src/Ws/Steps.antt =====
-- The room handlers of a control message as steps of the registry.
use network_ultra_server.Prelude.{
  ℕ, ◌≡◌, refl, sym, ◌⊎◌, inl, inr, String, List, Option, none, some, arith, ◌==◌, Bool-cases,
  Option-cases, subst, ltb, length, string_eq, bytes_eq,
}
use network_ultra_server.Prelude.Maps.{lookup, lookup-insert_self}
use network_ultra_server.Room.State.{Uuid, Result, ok, Result-cases, Peer, Room, World, put_peer}
use network_ultra_server.Room.Ops.{add, hash_password, check_password, max_password_bytes}
use network_ultra_server.Room.Registry.{create, find, notify, publish_update}
use network_ultra_server.Room.Invariant.{Coherent}
use network_ultra_server.Room.Invariant.Create.{create_cases, made}
use network_ultra_server.Room.Invariant.Runs.{Step, Reach}
use network_ultra_server.Ws.State.{
  Hub, Envelope, Libraries, RoomCreateData, RoomJoinData, allow_peer, broadcast_to_others,
  do_password_work,
}
use network_ultra_server.Ws.Rooms.{
  refreshed, announce_join, join_peer_to_room, create_and_join, hash_and_create, create_request,
  check_and_join, join_request, known_visibility, known_role,
}
use network_ultra_server.Ws.Labels.{trim_space, valid_room_name, bytes_of}

pub Reach-trans :
    {to_lower : String → String} {u v w : World}
    → Reach to_lower u v
    → Reach to_lower v w
    → Reach to_lower u w
Reach-trans first Reach.here = first
Reach-trans first (Reach.next second step) = Reach.next (Reach-trans first second) step

module _ (lib : Libraries) where
  pub world-allow_peer :
      (h : Hub) (p : Peer) (action : String) (limit window now : ℕ)
      → (allow_peer lib h p action limit window now).0.world ≡ h.world
  unfolding allow_peer
  world-allow_peer h p action limit window now = refl

  module _ (h : Hub) (p : Peer) (at_peer : lookup p.id h.world.peers ≡ some p) where
    module _ (r : Room) (role request : String) where
      abbrev p' : Peer
      p' = record p { role = role }

      abbrev added : World
      added = (add (put_peer h.world p') r p').0

      join_cases :
          ((join_peer_to_room h p r role request).world ≡ added)
          ⊎ ((join_peer_to_room h p r role request).world
              ≡ publish_update added (refreshed added r))
      unfolding join_peer_to_room announce_join broadcast_to_others
      join_cases = elim (Result-cases (add (put_peer h.world p') r p').1) [
        | inl (e, refused) ↦ inl (ground arith)
        | inr (others, joined) ↦ inr (ground arith)
      ]

      pub join_peer_to_room-Reach :
          lookup r.id h.world.rooms ≡ some r
          → p.cur_room ≡ none
          → Reach lib.to_lower h.world (join_peer_to_room h p r role request).world
      join_peer_to_room-Reach at_room free = elim join_cases [
        | inl e ↦ subst (Reach lib.to_lower h.world) (sym e) in_room
        | inr e ↦
            subst (Reach lib.to_lower h.world) (sym e)
              (Reach.next in_room (Step.publishes (refreshed added r)))
      ]
        where
          in_room : Reach lib.to_lower h.world added
          in_room =
              Reach.next (Reach.next Reach.here (Step.touches p p' at_peer (refl, refl)))
                (Step.adds r p' at_room (lookup-insert_self p.id p' h.world.peers) free)

  -- A room that Create made is stored, and no peer is touched.
  created_lem :
      (w : World) (id : Uuid) (now : ℕ) (name visibility : String) (hash : Option (List ℕ))
      (r : Room)
      → (create lib.to_lower w id now name visibility hash).1 ≡ ok r
      → (lookup r.id (create lib.to_lower w id now name visibility hash).0.rooms ≡ some r)
        × ((create lib.to_lower w id now name visibility hash).0.peers ≡ w.peers)
  unfolding notify
  created_lem w id now name visibility hash r good =
      elim (create_cases lib.to_lower w id now name visibility hash) [
        | inl (e, _) ↦ absurd (ground arith)
        | inr (inl (e, _)) ↦ absurd (ground arith)
        | inr (inr (inl (e, _))) ↦ absurd (ground arith)
        | inr (inr (inr (e, _, _))) ↦
            let m : made lib.to_lower w id now name visibility hash ≡ r = ground arith in
            subst
              (λ (x : Room).
                (lookup x.id (create lib.to_lower w id now name visibility hash).0.rooms ≡ some x)
                × ((create lib.to_lower w id now name visibility hash).0.peers ≡ w.peers))
              m
              (rw e (
                ground (
                  arith,
                  lookup-insert_self (made lib.to_lower w id now name visibility hash).id
                      (made lib.to_lower w id now name visibility hash) w.rooms,
                )))
      ]

  module _ (h : Hub) (p : Peer) (at_peer : lookup p.id h.world.peers ≡ some p)
      (free : p.cur_room ≡ none) where
    module _ (id : Uuid) (now : ℕ) (new_id : lookup id h.world.rooms ≡ none) where
      create_and_join-Reach :
          (request : String) (d : RoomCreateData) (hash : Option (List ℕ))
          → Reach lib.to_lower h.world (create_and_join lib h p request d hash id now).world
      unfolding create_and_join
      create_and_join-Reach request d hash = elim (Result-cases outcome) [
        | inl (e, refused) ↦ subst (Reach lib.to_lower h.world) (sym (ground arith)) created
        | inr (r, good) ↦
            let (stored, peers) =
              created_lem h.world id now (trim_space d.room_name) (known_visibility d.visibility)
                hash r good in
            subst (Reach lib.to_lower h.world) (sym (ground arith)) (
              Reach-trans created (
                join_peer_to_room-Reach (record h { world = made_world }) p (rw peers at_peer) r
                  "send" request stored free))
      ]
        where
          outcome : Result Room
          outcome =
              (create lib.to_lower h.world id now (trim_space d.room_name)
                (known_visibility d.visibility) hash).1

          made_world : World
          made_world =
              (create lib.to_lower h.world id now (trim_space d.room_name)
                (known_visibility d.visibility) hash).0

          created : Reach lib.to_lower h.world made_world
          created = Reach.next Reach.here (
              Step.creates id now (trim_space d.room_name) (known_visibility d.visibility) hash
                new_id)

      hash_and_create-Reach :
          (request : String) (d : RoomCreateData)
          → Reach lib.to_lower h.world (hash_and_create lib h p request d id now).world
      unfolding hash_and_create
      hash_and_create-Reach request d = elim (Bool-cases (d.password == "")) [
        | inl y ↦ rw y (create_and_join-Reach request d none)
        | inr n ↦
            elim (Option-cases
              (do_password_work h (hash_password lib.generate_hash (bytes_of d.password)))) [
                | inl busy ↦ rw (n, busy) Reach.here
                | inr (result, done) ↦ elim (Result-cases result) [
                  | inl (e, failed) ↦ rw (n, done, failed) Reach.here
                  | inr (hash, hashed) ↦ rw (n, done, hashed) (create_and_join-Reach request d hash)
                ]
              ]
      ]

      pub create_request-Reach :
          (env : Envelope) → Reach lib.to_lower h.world (create_request lib h p env id now).world
      unfolding create_request
      create_request-Reach env = elim (Option-cases (lib.unmarshal_room_create env.data_bytes)) [
        | inl bad ↦ rw (bad, create_request) Reach.here
        | inr (d, good) ↦ elim (Bool-cases (valid_room_name d.room_name)) [
          | inr n ↦ rw (good, n, create_request) Reach.here
          | inl y ↦ elim (Bool-cases (ltb max_password_bytes (length (bytes_of d.password)))) [
            | inl long ↦ rw (good, y, long, create_request) Reach.here
            | inr fits ↦ rw (good, y, fits, create_request) (hash_and_create-Reach env.id d)
          ]
        ]
      ]

    module _ (c : Coherent h.world) where
      check_cases :
          (request : String) (d : RoomJoinData) (r : Room)
          → ((check_and_join lib h p request d r).world ≡ h.world)
            ⊎ (check_and_join lib h p request d r
                ≡ join_peer_to_room h p r (known_role d.role) request)
      unfolding check_and_join
      check_cases request d r =
          elim (Option-cases
            (do_password_work h (check_password lib.compare_hash r (bytes_of d.password)))) [
              | inl busy ↦ ground arith
              | inr (result, done) ↦ elim (Option-cases result) [
                | inr (e, wrong) ↦ ground arith
                | inl right ↦ ground arith
              ]
            ]

      check_and_join-Reach :
          (request : String) (d : RoomJoinData) (r : Room)
          → lookup r.id h.world.rooms ≡ some r
          → Reach lib.to_lower h.world (check_and_join lib h p request d r).world
      check_and_join-Reach request d r at_room = elim (check_cases request d r) [
        | inl same ↦ subst (Reach lib.to_lower h.world) (sym same) Reach.here
        | inr e ↦
            rw e (join_peer_to_room-Reach h p at_peer r (known_role d.role) request at_room free)
      ]

      found_lem :
          (name : String) (r : Room)
          → find lib.to_lower h.world name ≡ some r
          → lookup r.id h.world.rooms ≡ some r
      unfolding find
      found_lem name r h' = elim (Option-cases (lookup (lib.to_lower name) h.world.table)) [
        | inl unknown ↦ absurd (ground arith)
        | inr (id, at) ↦
            let stored : lookup id h.world.rooms ≡ some r = ground arith in
            subst (λ (x : Uuid). lookup x h.world.rooms ≡ some r) (sym (c.stored id r stored).0)
              stored
      ]

      pub join_request-Reach :
          (env : Envelope) → Reach lib.to_lower h.world (join_request lib h p env).world
      unfolding join_request
      join_request-Reach env = elim (Option-cases (lib.unmarshal_room_join env.data_bytes)) [
        | inl bad ↦ rw (bad, join_request) Reach.here
        | inr (d, good) ↦ elim (Bool-cases (valid_room_name d.room_name)) [
          | inr n ↦ rw (good, n, join_request) Reach.here
          | inl y ↦ elim (Bool-cases (ltb max_password_bytes (length (bytes_of d.password)))) [
            | inl long ↦ rw (good, y, long, join_request) Reach.here
            | inr fits ↦ elim (Option-cases (find lib.to_lower h.world (trim_space d.room_name))) [
              | inl missing ↦ rw (good, y, fits, missing, join_request) Reach.here
              | inr (r, found) ↦
                  rw (good, y, fits, found, join_request)
                    (check_and_join-Reach env.id d r (found_lem (trim_space d.room_name) r found))
            ]
          ]
        ]
      ]
