-- ===== src/Ws/Messages.antt =====
-- A control message as it comes from the wire.
use network_ultra_server.Prelude.{
  ℕ, ◌≡◌, sym, ◌⊎◌, inl, inr, List, none, some, arith, Bool-cases, Option-cases, subst, bytes_eq,
  string_eq,
}
use network_ultra_server.Prelude.Maps.{lookup}
use network_ultra_server.Room.State.{Uuid, Peer, World}
use network_ultra_server.Room.Invariant.{Coherent}
use network_ultra_server.Room.Invariant.Runs.{Reach, Reach-Coherent}
use network_ultra_server.Ws.State.{Hub, Envelope, Libraries, allow_peer, decode}
use network_ultra_server.Ws.Rooms.{minute}
use network_ultra_server.Ws.Control.{handle_control, dispatch_control}
use network_ultra_server.Ws.Steps.{world-allow_peer}
use network_ultra_server.Ws.Refinement.{dispatch_control-Follows}

module _ (lib : Libraries) (h : Hub) (p : Peer) (payload : List ℕ) (id : Uuid) (now : ℕ) where
  abbrev limited : Hub
  limited = (allow_peer lib h p "control" h.rate_limits.control_per_peer_per_minute minute now).0

  same_world : limited.world ≡ h.world
  same_world =
      world-allow_peer lib h p "control" h.rate_limits.control_per_peer_per_minute minute now

  control_cases :
      ((handle_control lib h p payload id now).world ≡ h.world)
      ⊎ ((env : Envelope) × ((handle_control lib h p payload id now).world
            ≡ (dispatch_control lib limited p env id now).world))
  unfolding handle_control
  control_cases = elim (Option-cases (decode lib payload)) [
    | inl bad ↦ inl (ground (arith, same_world))
    | inr (env, good) ↦
        elim (Bool-cases
          (allow_peer lib h p "control" h.rate_limits.control_per_peer_per_minute minute now).1) [
            | inr n ↦ inl (ground (arith, same_world))
            | inl y ↦ elim (Bool-cases (lib.utf8_valid payload)) [
              | inr n ↦ inl (ground (arith, same_world))
              | inl valid ↦ inr (env, ground arith)
            ]
          ]
  ]

  -- Whatever bytes a stored peer's client sends in a control message, the registry, coherent
  -- before, takes some sequence of its own steps and is coherent afterwards, if uuid.New gives a
  -- new UUID.
  pub handle_control-Reach :
      Coherent h.world
      → lookup p.id h.world.peers ≡ some p
      → lookup id h.world.rooms ≡ none
      → Reach lib.to_lower h.world (handle_control lib h p payload id now).world
        × Coherent (handle_control lib h p payload id now).world
  handle_control-Reach c at_peer new_id = (run, Reach-Coherent lib.to_lower c run)
    where
      run : Reach lib.to_lower h.world (handle_control lib h p payload id now).world
      run = elim control_cases [
        | inl same ↦ subst (Reach lib.to_lower h.world) (sym same) Reach.here
        | inr (env, e) ↦ subst (Reach lib.to_lower h.world) (sym e) (
            subst
              (λ (w : World).
                Reach lib.to_lower w (dispatch_control lib limited p env id now).world)
              same_world
              (dispatch_control-Follows lib limited p
                (subst (λ (w : World). lookup p.id w.peers ≡ some p) (sym same_world) at_peer) env
                now (subst Coherent (sym same_world) c) id
                (subst (λ (w : World). lookup id w.rooms ≡ none) (sym same_world) new_id)))
      ]
