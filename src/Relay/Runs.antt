-- ===== src/Relay/Runs.antt =====
-- The events of the whole server, and their runs.
use network_ultra_server.Prelude.{
  ℕ, ◌≡◌, refl, sym, inl, inr, String, Bool, List, [], ◌∷◌, Option, none, some, arith, Bool-cases,
  Option-cases, subst, ltb, length, ◌++◌, bytes_eq, string_eq,
}
use network_ultra_server.Prelude.Maps.{lookup}
use network_ultra_server.Room.State.{Uuid, Peer, Room, Frame, put_room}
use network_ultra_server.Room.Audio.{forward, audio_ch_buffer}
use network_ultra_server.Room.Registry.{destroy}
use network_ultra_server.Room.Invariant.{Coherent}
use network_ultra_server.Room.Invariant.Queued.{queue-Coherent}
use network_ultra_server.Room.Invariant.Destroy.{destroy-Coherent}
use network_ultra_server.Room.Invariant.Runs.{touch-Coherent}
use network_ultra_server.Udp.State.{UdpAddr}
use network_ultra_server.Udp.Handlers.{Verdict, dispatch}
use network_ultra_server.Udp.Sweep.{expire_idle, udp_route}
use network_ultra_server.Udp.Binding.Runs.{dispatch-IsBound, expire_idle-IsBound, udp_route-IsBound}
use network_ultra_server.Ws.State.{Libraries}
use network_ultra_server.Ws.Control.{handle_control, handle_audio}
use network_ultra_server.Ws.Session.{System, open_session, close_session}
use network_ultra_server.Ws.Messages.{handle_control-Reach}
use network_ultra_server.Ws.Audio.{handle_audio-Queues}
use network_ultra_server.Ws.Closing.{close_session_silent}
use network_ultra_server.Ws.Disconnect.{cleanup_peer_gone}
use network_ultra_server.Ws.Rooms.{current_room, cleanup_peer}
use network_ultra_server.Relay.{with_world, deliver, receive}
use network_ultra_server.Relay.Sound.{IsSound}
use network_ultra_server.Relay.Opening.{open_session-IsSound}

module _ (lib : Libraries) where
  -- What can happen: a connection says hello, sends a control message or a frame, or ends; a
  -- datagram comes from anywhere; a timer's callback runs; a room's forwarder takes the oldest
  -- frame; the sweep runs; the fan-out asks for a route.
  pub data Step (s : System) : System → Type 0 where
    opens :
        (text : Bool) (payload : List ℕ) (remote_ip : String) (id : Uuid) (now : ℕ)
        (advertised : Bool) (token : Option (List ℕ))
        → lookup id s.hub.world.peers ≡ none
        → Step s (open_session lib s text payload remote_ip id now advertised token).0
    controls :
        (p : Peer) (payload : List ℕ) (id : Uuid) (now : ℕ)
        → lookup p.id s.hub.world.peers ≡ some p
        → lookup id s.hub.world.rooms ≡ none
        → Step s (record s { hub = handle_control lib s.hub p payload id now })
    speaks :
        (p : Peer) (payload : List ℕ) (now : ℕ)
        → lookup p.id s.hub.world.peers ≡ some p
        → Step s (record s { hub = (handle_audio lib s.hub p payload now).0 })
    closes : (p : Peer) → lookup p.id s.hub.world.peers ≡ some p → Step s (close_session s p)
    receives :
        (pkt : List ℕ) (src : UdpAddr) (now : ℕ) → Step s (receive lib.uuid_string s pkt src now)
    fires :
        (r : Room) (generation : ℕ)
        → lookup r.id s.hub.world.rooms ≡ some r
        → Step s (with_world s (destroy s.hub.world r generation))
    forwards :
        (r : Room) (f : Frame) (fs : List Frame)
        → lookup r.id s.hub.world.rooms ≡ some r
        → r.audio_ch ≡ f ∷ fs
        → Step s (with_world s (put_room s.hub.world (record r { audio_ch = fs })))
    sweeps : (now : ℕ) → Step s (record s { udp = expire_idle s.udp now })
    routes : (id : Uuid) (now : ℕ) → Step s (record s { udp = (udp_route s.udp id now).0 })

  pub data Reach (s : System) : System → Type 0 where
    here : Reach s s
    next : {t u : System} → Reach s t → Step t u → Reach s u

  module _ (s : System) (ok : IsSound s) where
    own_key :
        (id : Uuid) (r : Room)
        → lookup id s.hub.world.rooms ≡ some r
        → lookup r.id s.hub.world.rooms ≡ some r
    own_key id r at =
        subst (λ (x : Uuid). lookup x s.hub.world.rooms ≡ some r)
          (sym (ok.coherent.stored id r at).0) at

    current_key :
        (p : Peer) (r : Room)
        → current_room s.hub.world p ≡ some r
        → lookup r.id s.hub.world.rooms ≡ some r
    unfolding current_room
    current_key p r found = elim (Option-cases p.cur_room) [
      | inl nowhere ↦ absurd (ground arith)
      | inr (id, at) ↦ own_key id r (ground arith)
    ]

    speaks-Coherent :
        (p : Peer) (payload : List ℕ) (now : ℕ)
        → Coherent (handle_audio lib s.hub p payload now).0.world
    speaks-Coherent p payload now = elim (handle_audio-Queues lib s.hub p payload now) [
      | inl (_, same) ↦ subst Coherent (sym same) ok.coherent
      | inr (r, hdr, audio, (_, _, _, found, _), _, e) ↦
          subst Coherent (sym e)
            (queue-Coherent s.hub.world r _ ok.coherent (current_key p r found))
    ]

    forward_lem :
        (r : Room) (f : Frame) → (fs : List Frame) × ((forward r f).0 ≡ record r { audio_ch = fs })
    unfolding forward
    forward_lem r f = elim (Bool-cases (ltb (length r.audio_ch) audio_ch_buffer)) [
      | inl y ↦ (r.audio_ch ++ f ∷ [], ground arith)
      | inr n ↦ (r.audio_ch, ground arith)
    ]

    deliver-IsSound : (v : Verdict) → IsSound (deliver s v)
    unfolding deliver
    deliver-IsSound (Verdict.forwarded id f) = elim (Option-cases (lookup id s.hub.world.rooms)) [
      | inl gone ↦ rw (gone, deliver) ok
      | inr (r, at) ↦
          rw (at, deliver)
            (record {
              coherent =
                  (let (fs, e) = forward_lem r f in
                    subst (λ (x : Room). Coherent (put_room s.hub.world x)) (sym e)
                      (queue-Coherent s.hub.world r fs ok.coherent (own_key id r at)));
              bound = ok.bound;
            })
    ]
    deliver-IsSound _ = ok

    closes-Coherent :
        (p : Peer) → lookup p.id s.hub.world.peers ≡ some p → Coherent (close_session s p).hub.world
    unfolding close_session
    closes-Coherent p at =
        let ((q, stored, free), unlisted, c) =
          cleanup_peer_gone lib s.hub p at ok.coherent "disconnect" in
        rw (stored, close_session)
          (touch-Coherent (cleanup_peer s.hub p "disconnect").world q _ c
            (subst (λ (x : Uuid). lookup x (cleanup_peer s.hub p "disconnect").world.peers ≡ some q)
              (sym (c.whereabouts p.id q stored).0) stored)
            (refl, refl))

  Step-IsSound : {s t : System} → Step s t → IsSound s → IsSound t
  unfolding receive
  Step-IsSound {s} (opens text payload remote_ip id now advertised token unknown) ok =
      open_session-IsSound lib remote_ip id now s text payload advertised token ok unknown
  Step-IsSound {s} (controls p payload id now at new_id) ok = record {
    coherent = (handle_control-Reach lib s.hub p payload id now ok.coherent at new_id).1;
    bound = ok.bound;
  }
  Step-IsSound {s} (speaks p payload now at) ok = record {
    coherent = speaks-Coherent s ok p payload now;
    bound = ok.bound;
  }
  Step-IsSound {s} (closes p at) ok = record {
    coherent = closes-Coherent s ok p at;
    bound = (close_session_silent s p ok.bound).0;
  }
  Step-IsSound {s} (receives pkt src now) ok =
      deliver-IsSound _
        (record {
          coherent = ok.coherent;
          bound = dispatch-IsBound lib.uuid_string s.hub.world.peers s.udp ok.bound pkt src now;
        })
        (dispatch lib.uuid_string s.udp s.hub.world.peers pkt src now).1
  Step-IsSound {s} (fires r generation at) ok = record {
    coherent = destroy-Coherent s.hub.world r generation ok.coherent at;
    bound = ok.bound;
  }
  Step-IsSound {s} (forwards r f fs at head) ok = record {
    coherent = queue-Coherent s.hub.world r fs ok.coherent at;
    bound = ok.bound;
  }
  Step-IsSound {s} (sweeps now) ok = record {
    coherent = ok.coherent;
    bound = expire_idle-IsBound s.udp now ok.bound;
  }
  Step-IsSound {s} (routes id now) ok = record {
    coherent = ok.coherent;
    bound = udp_route-IsBound s.udp ok.bound id now;
  }

  -- Through any sequence of hellos, control messages, frames and ends of sessions, datagrams,
  -- destroy timers, forwarded frames, sweeps and sends, the registry stays coherent and an address
  -- stays bound to one attached peer and a peer to one address, where uuid.New gives UUIDs that
  -- are not in use.
  pub Reach-IsSound : {s t : System} → IsSound s → Reach s t → IsSound t
  Reach-IsSound ok here = ok
  Reach-IsSound ok (next run step) = Step-IsSound step (Reach-IsSound ok run)
