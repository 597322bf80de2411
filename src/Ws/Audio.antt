-- ===== src/Ws/Audio.antt =====
-- Audio over the WebSocket: what handleAudio queues.
use network_ultra_server.Prelude.{
  ℕ, ◌≡◌, ◌≢◌, ◌<◌, ◌⊎◌, inl, inr, Bool, true, false, List, [], ◌∷◌, ◌++◌, none, some, arith,
  ==_iff, Bool-cases, Option-cases, length, bytes_eq,
}
use network_ultra_server.Proto.Audio.{unpack, AudioFrameHeader}
use network_ultra_server.Proto.Audio
use network_ultra_server.Room.State.{Peer, Room, put_room}
use network_ultra_server.Room.Audio.{forward, audio_ch_buffer}
use network_ultra_server.Ws.State.{Hub, Libraries, allow_peer}
use network_ultra_server.Ws.Rooms.{current_room}
use network_ultra_server.Ws.Control.{AudioVerdict, handle_audio}

module _ (lib : Libraries) (h : Hub) (p : Peer) (payload : List ℕ) (now : ℕ) where
  abbrev outcome : Hub × AudioVerdict
  outcome = handle_audio lib h p payload now

  abbrev outcome_forwarded : Bool
  outcome_forwarded = elim outcome.1 [ AudioVerdict.forwarded ↦ true | _ ↦ false ]

  -- The frame at the end of the room's queue.
  abbrev pub queued : Room → Room
  queued r = record r {
    audio_ch = r.audio_ch ++ record { source_peer_id = p.id; payload = payload; done = none } ∷ [];
  }

  -- The room of a frame that is queued.
  abbrev pub Queues : Room → AudioFrameHeader → List ℕ → Type 0
  Queues r hdr audio =
      (unpack payload ≡ Audio.ok (hdr, audio))
      × (hdr.source_peer_id ≡ p.id)
      × (p.muted ≡ false)
      × (current_room h.world p ≡ some r)
      × (length r.audio_ch < audio_ch_buffer)

  -- A frame over the WebSocket is forwarded only if its header names the session's own peer, who
  -- is not muted and in a room whose queue has space, which then ends with the frame as it came;
  -- in every other case the registry is unchanged.
  pub handle_audio-Queues :
      ((outcome.1 ≢ AudioVerdict.forwarded) × (outcome.0.world ≡ h.world))
      ⊎ ((r : Room) × (hdr : AudioFrameHeader) × (audio : List ℕ) × Queues r hdr audio
          × (outcome.1 ≡ AudioVerdict.forwarded)
          × (outcome.0.world ≡ put_room h.world (queued r)))
  unfolding handle_audio allow_peer forward
  handle_audio-Queues = elim (Audio.Result-cases (unpack payload)) [
    | inl (e, bad) ↦ inl (ground arith)
    | inr ((hdr, audio), good) ↦ elim (Option-cases (current_room h.world p)) [
      | inl nowhere ↦ inl (ground arith)
      | inr (r, found) ↦ elim (Bool-cases outcome_forwarded) [
        | inl y ↦ inr (
          r,
          hdr,
          audio,
          ground (arith, ==_iff hdr.source_peer_id p.id),
          ground arith,
          ground arith,
        )
        | inr n ↦ inl (ground arith)
      ]
    ]
  ]
