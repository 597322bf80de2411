-- ===== src/Ws/Refinement.antt =====
-- The control plane's handlers as steps of the registry.
use network_ultra_server.Prelude.{
  ℕ, ◌≡◌, refl, sym, ◌⊎◌, inl, inr, String, Bool, List, none, some, arith, Option-cases, subst,
  string_eq, bytes_eq,
}
use network_ultra_server.Prelude.Maps.{lookup}
use network_ultra_server.Room.State.{Uuid, Peer, Room, World, put_peer}
use network_ultra_server.Room.Ops.{set_subscribed}
use network_ultra_server.Room.Invariant.{Coherent}
use network_ultra_server.Room.Invariant.Runs.{Step, Reach}
use network_ultra_server.Ws.Labels.{Ids-cases, parse_subscription_ids}
use network_ultra_server.Ws.State.{Hub, Envelope, Libraries, allow_peer, broadcast_to_others}
use network_ultra_server.Ws.Rooms.{
  minute, create_request, handle_room_create, join_request, handle_room_join, handle_room_list,
  part, current_room, cleanup_peer, handle_room_leave,
}
use network_ultra_server.Ws.Control.{
  set_muted, handle_peer_mute, handle_subscribe, handle_ping, dispatch_control,
}
use network_ultra_server.Ws.Steps.{world-allow_peer, create_request-Reach, join_request-Reach}

module _ (lib : Libraries) where
  -- The peer is stored as the handler sees it.
  abbrev pub Stored : Hub → Peer → Type 0
  Stored h p = lookup p.id h.world.peers ≡ some p

  abbrev pub Follows : World → World → Type 0
  Follows w u = Reach lib.to_lower w u

  module _ (h : Hub) (p : Peer) (at_peer : Stored h p) (env : Envelope) (now : ℕ) where
    abbrev limited : String → ℕ → Hub
    limited action limit = (allow_peer lib h p action limit minute now).0

    same-Follows : (u : World) → u ≡ h.world → Follows h.world u
    same-Follows u e = subst (Follows h.world) (sym e) Reach.here

    after :
        (action : String) (limit : ℕ) (u : World)
        → Follows (limited action limit).world u
        → Follows h.world u
    after action limit u run =
        subst (λ (w : World). Follows w u) (world-allow_peer lib h p action limit minute now) run

    still : (action : String) (limit : ℕ) → Stored (limited action limit) p
    still action limit =
        subst (λ (w : World). lookup p.id w.peers ≡ some p)
          (sym (world-allow_peer lib h p action limit minute now)) at_peer

    create_cases :
        (id : Uuid)
        → ((handle_room_create lib h p env id now).world ≡ h.world)
          ⊎ ((p.cur_room ≡ none)
              × (handle_room_create lib h p env id now
                  ≡ create_request lib
                      (limited "room_create" h.rate_limits.room_create_per_peer_per_minute)
                      p
                      env
                      id
                      now))
    unfolding handle_room_create allow_peer
    create_cases id = elim (Option-cases p.cur_room) [
      | inl free ↦ ground arith
      | inr (at, there) ↦ ground arith
    ]

    handle_room_create-Follows :
        (id : Uuid)
        → lookup id h.world.rooms ≡ none
        → Follows h.world (handle_room_create lib h p env id now).world
    handle_room_create-Follows id new_id = elim (create_cases id) [
      | inl same ↦ same-Follows _ same
      | inr (free, e) ↦ rw e (
          after "room_create" h.rate_limits.room_create_per_peer_per_minute _ (
            create_request-Reach lib _ p
              (still "room_create" h.rate_limits.room_create_per_peer_per_minute) free id now
              (subst (λ (w : World). lookup id w.rooms ≡ none)
                (sym (
                  world-allow_peer lib h p "room_create"
                    h.rate_limits.room_create_per_peer_per_minute minute now))
                new_id)
              env))
    ]

    join_cases :
        ((handle_room_join lib h p env now).world ≡ h.world)
        ⊎ ((p.cur_room ≡ none)
            × (handle_room_join lib h p env now
                ≡ join_request lib
                    (limited "room_join" h.rate_limits.room_join_per_peer_per_minute)
                    p
                    env))
    unfolding handle_room_join allow_peer
    join_cases = elim (Option-cases p.cur_room) [
      | inl free ↦ ground arith
      | inr (at, there) ↦ ground arith
    ]

    module _ (c : Coherent h.world) where
      handle_room_join-Follows : Follows h.world (handle_room_join lib h p env now).world
      handle_room_join-Follows = elim join_cases [
        | inl same ↦ same-Follows _ same
        | inr (free, e) ↦ rw e (
            after "room_join" h.rate_limits.room_join_per_peer_per_minute _ (
              join_request-Reach lib _ p
                (still "room_join" h.rate_limits.room_join_per_peer_per_minute) free
                (subst Coherent
                  (sym (
                    world-allow_peer lib h p "room_join" h.rate_limits.room_join_per_peer_per_minute
                      minute now))
                  c)
                env))
      ]

      current_lem :
          (r : Room) → current_room h.world p ≡ some r → lookup r.id h.world.rooms ≡ some r
      unfolding current_room
      current_lem r found = elim (Option-cases p.cur_room) [
        | inl nowhere ↦ absurd (ground arith)
        | inr (id, at) ↦
            let stored : lookup id h.world.rooms ≡ some r = ground arith in
            subst (λ (x : Uuid). lookup x h.world.rooms ≡ some r) (sym (c.stored id r stored).0)
              stored
      ]

      part-Follows :
          (r : Room) (reason : String)
          → current_room h.world p ≡ some r
          → Follows h.world (part h p r reason).world
      unfolding part broadcast_to_others
      part-Follows r reason found =
          Reach.next (Reach.next Reach.here (Step.removes r p (current_lem r found) at_peer))
            (Step.publishes _)

      -- When a session ends, its peer leaves its room by the registry's own steps.
      pub cleanup_peer-Follows : (reason : String) → Follows h.world (cleanup_peer h p reason).world
      unfolding cleanup_peer
      cleanup_peer-Follows reason = elim (Option-cases (current_room h.world p)) [
        | inl nowhere ↦ rw (nowhere, cleanup_peer) Reach.here
        | inr (r, found) ↦ rw (found, cleanup_peer) (part-Follows r reason found)
      ]

      leave_cases :
          ((handle_room_leave h p env).world ≡ h.world)
          ⊎ ((handle_room_leave h p env).world ≡ (cleanup_peer h p "leave").world)
      unfolding handle_room_leave
      leave_cases = elim (Option-cases (current_room h.world p)) [
        | inl nowhere ↦ ground arith
        | inr (r, found) ↦ ground arith
      ]

    list_lem : (handle_room_list lib h p env now).world ≡ h.world
    unfolding handle_room_list allow_peer
    list_lem = ground arith

    mute_cases :
        ((handle_peer_mute lib h p env).world ≡ h.world)
        ⊎ ((on : Bool) × ((handle_peer_mute lib h p env).world
              ≡ put_peer h.world (record p { muted = on })))
    unfolding handle_peer_mute set_muted broadcast_to_others
    mute_cases = elim (Option-cases (lib.unmarshal_peer_mute env.data_bytes)) [
      | inl bad ↦ inl (ground arith)
      | inr (on, good) ↦
          elim (Option-cases (current_room (put_peer h.world (record p { muted = on })) p)) [
            | inl nowhere ↦ inr (on, ground arith)
            | inr (r, found) ↦ inr (on, ground arith)
          ]
    ]

    subscribe_cases :
        ((handle_subscribe lib h p env).world ≡ h.world)
        ⊎ ((sources : List Uuid) × ((handle_subscribe lib h p env).world
              ≡ put_peer h.world (set_subscribed p (some sources))))
    unfolding handle_subscribe
    subscribe_cases = elim (Option-cases (lib.unmarshal_subscribe env.data_bytes)) [
      | inl bad ↦ inl (ground arith)
      | inr (raw, good) ↦ elim (Ids-cases (parse_subscription_ids lib.uuid_parse raw)) [
        | inl (sources, parsed) ↦ inr (sources, ground arith)
        | inr (e, refused) ↦ inl (ground arith)
      ]
    ]

    -- A change of the peer that leaves it where it is.
    touch-Follows :
        (q : Peer) (u : World)
        → (q.id ≡ p.id) × (q.cur_room ≡ p.cur_room)
        → u ≡ put_peer h.world q
        → Follows h.world u
    touch-Follows q u same e =
        subst (Follows h.world) (sym e) (Reach.next Reach.here (Step.touches p q at_peer same))

    dispatch_cases :
        (id : Uuid)
        → ((dispatch_control lib h p env id now).world ≡ h.world)
          ⊎ ((dispatch_control lib h p env id now).world
              ≡ (handle_room_create lib h p env id now).world)
          ⊎ ((dispatch_control lib h p env id now).world ≡ (handle_room_join lib h p env now).world)
          ⊎ ((dispatch_control lib h p env id now).world ≡ (handle_room_leave h p env).world)
          ⊎ ((dispatch_control lib h p env id now).world ≡ (handle_peer_mute lib h p env).world)
          ⊎ ((dispatch_control lib h p env id now).world ≡ (handle_subscribe lib h p env).world)
    unfolding dispatch_control handle_ping
    dispatch_cases id = ground (arith, list_lem)

    module _ (c : Coherent h.world) (id : Uuid) (new_id : lookup id h.world.rooms ≡ none) where
      leave-Follows : Follows h.world (handle_room_leave h p env).world
      leave-Follows = elim (leave_cases c) [
        | inl same ↦ same-Follows _ same
        | inr e ↦ subst (Follows h.world) (sym e) (cleanup_peer-Follows c "leave")
      ]

      mute-Follows : Follows h.world (handle_peer_mute lib h p env).world
      mute-Follows = elim mute_cases [
        | inl same ↦ same-Follows _ same
        | inr (on, e) ↦ touch-Follows (record p { muted = on }) _ (refl, refl) e
      ]

      subscribe-Follows : Follows h.world (handle_subscribe lib h p env).world
      unfolding set_subscribed
      subscribe-Follows = elim subscribe_cases [
        | inl same ↦ same-Follows _ same
        | inr (sources, e) ↦ touch-Follows (set_subscribed p (some sources)) _ (refl, refl) e
      ]

      pub dispatch_control-Follows : Follows h.world (dispatch_control lib h p env id now).world
      dispatch_control-Follows = elim (dispatch_cases id) [
        | inl same ↦ same-Follows _ same
        | inr (inl e) ↦ subst (Follows h.world) (sym e) (handle_room_create-Follows id new_id)
        | inr (inr (inl e)) ↦ subst (Follows h.world) (sym e) (handle_room_join-Follows c)
        | inr (inr (inr (inl e))) ↦ subst (Follows h.world) (sym e) leave-Follows
        | inr (inr (inr (inr (inl e)))) ↦ subst (Follows h.world) (sym e) mute-Follows
        | inr (inr (inr (inr (inr e)))) ↦ subst (Follows h.world) (sym e) subscribe-Follows
      ]
