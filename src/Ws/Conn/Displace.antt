-- ===== src/Ws/Conn/Displace.antt =====
-- What a frame of audio does to a full queue.
use network_ultra_server.Prelude.{
  ℕ, ◌+◌, ◌≡◌, refl, ap, ◌∙◌, Bool, true, false, List, [], ◌∷◌, ◌++◌, none, some, arith,
  if◌then◌else◌, zero, suc, length, length-append,
}
use network_ultra_server.Ws.Conn.{
  Outgoing, Conn, Written, make_room, write_audio, conn_write_queue_depth,
}

-- No message of the queue is audio.
abbrev pub all_control : List Outgoing → Bool
all_control [] = true
all_control (m ∷ ms) = if m.binary then false else all_control ms

abbrev pub sound : List ℕ → Outgoing
sound data_bytes = record { binary = true; payload = data_bytes }

append_assoc : (xs ys zs : List Outgoing) → ((xs ++ ys) ++ zs) ≡ (xs ++ (ys ++ zs))
append_assoc [] ys zs = refl
append_assoc (x ∷ xs) ys zs = ap (◌∷◌ x) (append_assoc xs ys zs)

all_control-append :
    (xs : List Outgoing) (m : Outgoing)
    → all_control xs ≡ true
    → m.binary ≡ false
    → all_control (xs ++ m ∷ []) ≡ true
all_control-append [] m h c = ground arith
all_control-append (x ∷ xs) m h c = ground (arith, all_control-append xs m)

drops : (m : Outgoing) (ms : List Outgoing) → m.binary ≡ true → make_room (m ∷ ms) ≡ ms
unfolding make_room
drops m ms b = ground arith

rotates : (m : Outgoing) (ms : List Outgoing) → m.binary ≡ false → make_room (m ∷ ms) ≡ ms ++ m ∷ []
unfolding make_room
rotates m ms c = ground arith

more_turns : (n : ℕ) → suc n + 2 ≡ suc (n + 2)
more_turns n = omega arith

module _ (cn : Conn) (data_bytes : List ℕ) (live : cn.done ≡ false) where
  abbrev holding : List Outgoing → Conn
  holding q = record cn { write_ch = q }

  full_turn :
      (turns : ℕ) (q : List Outgoing)
      → length q ≡ conn_write_queue_depth
      → write_audio (suc turns) (holding q) data_bytes
        ≡ write_audio turns (holding (make_room q)) data_bytes
  unfolding write_audio
  full_turn turns q full = ground arith

  free_turn :
      (turns : ℕ) (q : List Outgoing)
      → length q + 1 ≡ conn_write_queue_depth
      → write_audio (suc turns) (holding q) data_bytes
        ≡ some (holding (q ++ sound data_bytes ∷ []), Written.queued)
  unfolding write_audio
  free_turn turns q room = ground arith

  -- On an open connection whose full queue is control messages, an audio frame and anything behind
  -- it, writeAudio ends after two turns and one for each of those control messages: that audio
  -- frame is gone, and the control messages and then the new frame stand behind everything else.
  pub write_audio_displaces :
      (front back : List Outgoing) (oldest : Outgoing)
      → all_control front ≡ true
      → oldest.binary ≡ true
      → length (front ++ (oldest ∷ back)) ≡ conn_write_queue_depth
      → write_audio (length front + 2) (holding (front ++ (oldest ∷ back))) data_bytes
        ≡ some (holding (back ++ (front ++ (sound data_bytes ∷ []))), Written.queued)
  write_audio_displaces [] back oldest c b full =
      full_turn 1 (oldest ∷ back) full
      ∙ ap (λ (q : List Outgoing). write_audio 1 (holding q) data_bytes) (drops oldest back b)
      ∙ free_turn 0 back (omega (arith, full))
  write_audio_displaces (m ∷ front) back oldest c b full =
      ap (λ (n : ℕ). write_audio n (holding (m ∷ (front ++ (oldest ∷ back)))) data_bytes)
        (more_turns (length front))
      ∙ full_turn (length front + 2) (m ∷ (front ++ (oldest ∷ back))) full
      ∙ ap (λ (q : List Outgoing). write_audio (length front + 2) (holding q) data_bytes)
          (rotates m (front ++ (oldest ∷ back)) (ground arith)
            ∙ append_assoc front (oldest ∷ back) (m ∷ []))
      ∙ write_audio_displaces front (back ++ m ∷ []) oldest (ground arith) b (
          ground (
            arith,
            length-append front (oldest ∷ back),
            length-append front (oldest ∷ (back ++ m ∷ [])),
            length-append back (m ∷ []),
          ))
      ∙ ap (λ (q : List Outgoing). some (holding q, Written.queued))
          (append_assoc back (m ∷ []) (front ++ (sound data_bytes ∷ [])))

  -- On an open connection whose queue is full of control messages alone, no number of turns ends
  -- writeAudio's loop while nothing else takes a message out.
  pub write_audio_spins :
      (turns : ℕ) (q : List Outgoing)
      → all_control q ≡ true
      → length q ≡ conn_write_queue_depth
      → write_audio turns (holding q) data_bytes ≡ none
  unfolding write_audio
  write_audio_spins zero q c full = refl
  write_audio_spins (suc turns) [] c full = absurd (omega arith)
  write_audio_spins (suc turns) (m ∷ ms) c full =
      full_turn turns (m ∷ ms) full
      ∙ ap (λ (q : List Outgoing). write_audio turns (holding q) data_bytes)
          (rotates m ms (ground arith))
      ∙ write_audio_spins turns (ms ++ m ∷ [])
          (all_control-append ms m (ground arith) (ground arith))
          (ground (arith, length-append ms (m ∷ [])))
