-- ===== src/Ws/Conn/Turns.antt =====
-- internal/ws/conn.go: writeAudio as selects of a connection that others use too, and what they
-- make of the queue.
use network_ultra_server.Prelude.{
  ℕ, ◌≡◌, ◌≤◌, refl, ap, sym, subst, ◌∙◌, inl, inr, true, false, List, [], ◌∷◌, ◌++◌, some, arith,
  length, ltb, Bool-cases, zero, suc,
}
use network_ultra_server.Ws.Conn.{
  Outgoing, Conn, Written, write_audio, make_room, conn_write_queue_depth,
}
use network_ultra_server.Ws.Conn.Writer.{
  Line, Turn, Reach, new_line, with_queue, enqueue, take_front, put_back,
}
use network_ultra_server.Ws.Conn.Displace.{sound}
use network_ultra_server.Ws.Conn.Kept.{
  Displaces, Displaces-free, Displaces-audio, Displaces-control,
}
use network_ultra_server.Ws.Conn.Delivery.{Reach-IsTracked}

Reach-trans : {s t u : Line} → Reach s t → Reach t u → Reach s u
Reach-trans r Reach.start = r
Reach-trans r (Reach.next r' turn) = Reach.next (Reach-trans r r') turn

-- The connection before and after writeAudio, by what it returned.
abbrev pub Outcome : List ℕ → Line → Line → Written → Type 0
Outcome data_bytes s t Written.closed =
    (s.conn.done ≡ true) × (t.conn ≡ s.conn) × (t.accepted ≡ s.accepted)
Outcome data_bytes s t Written.queued =
    (s.conn.done ≡ false)
    × (t.conn.done ≡ false)
    × (t.accepted ≡ s.accepted ++ sound data_bytes ∷ [])
    × Displaces data_bytes s.conn.write_ch t.conn.write_ch

-- What writeAudio has no hand in.
pub record IsUntouched (s t : Line) : Type 0 where
  pub hands : t.hands ≡ s.hands
  pub writing : t.writing ≡ s.writing
  pub sent : t.sent ≡ s.sent
  pub stopped : t.stopped ≡ s.stopped

-- One turn at a full queue.
record IsTurned (s t : Line) : Type 0 where
  reached : Reach s t
  conn : t.conn ≡ with_queue s.conn (make_room s.conn.write_ch)
  accepted : t.accepted ≡ s.accepted
  untouched : IsUntouched s t

turn_lem :
    (s : Line) (m : Outgoing) (ms : List Outgoing)
    → s.conn.write_ch ≡ m ∷ ms
    → length s.conn.write_ch ≤ conn_write_queue_depth
    → (t : Line) × IsTurned s t
unfolding make_room take_front put_back
turn_lem s m ms at bound = elim (Bool-cases m.binary) [
  | inl audio ↦ (
    take_front s m ms,
    record {
      reached = Reach.next Reach.start (Turn.takes m ms at);
      conn = ground arith;
      accepted = ground arith;
      untouched = record {
        hands = ground arith;
        writing = ground arith;
        sent = ground arith;
        stopped = ground arith;
      };
    },
  )
  | inr control ↦
      let t = take_front s m ms in
      let held : t.hands ≡ [] ++ m ∷ s.hands = ground arith in
      (
        put_back t [] m s.hands,
        record {
          reached =
              Reach.next (Reach.next Reach.start (Turn.takes m ms at))
                (Turn.puts_back [] m s.hands held);
          conn = ground arith;
          accepted = ground arith;
          untouched = record {
            hands = ground arith;
            writing = ground arith;
            sent = ground arith;
            stopped = ground arith;
          };
        },
      )
]

full_lem :
    (s : Line)
    → length s.conn.write_ch ≡ conn_write_queue_depth
    → (m : Outgoing) × (ms : List Outgoing) × (s.conn.write_ch ≡ m ∷ ms)
full_lem s full = front_lem s.conn.write_ch refl
  where
    front_lem :
        (q : List Outgoing)
        → s.conn.write_ch ≡ q
        → (m : Outgoing) × (ms : List Outgoing) × (s.conn.write_ch ≡ m ∷ ms)
    front_lem [] empty = absurd (ground (arith, full, ap (length {A = Outgoing}) empty))
    front_lem (m ∷ ms) at = (m, ms, at)

-- What the turns behind the first did to the queue, seen from before it.
Displaces-turn :
    (data_bytes : List ℕ) (q q' : List Outgoing) (m : Outgoing) (ms : List Outgoing)
    → q ≡ m ∷ ms
    → length q ≡ conn_write_queue_depth
    → Displaces data_bytes (make_room q) q'
    → Displaces data_bytes q q'
unfolding make_room
Displaces-turn d q q' m ms at full later =
    let full' : length (m ∷ ms) ≡ conn_write_queue_depth =
      sym (ap (length {A = Outgoing}) at) ∙ full in
    let later' : Displaces d (make_room (m ∷ ms)) q' =
      subst (λ xs. Displaces d (make_room xs) q') at later in
    subst (λ xs. Displaces d xs q') (sym at)
      (elim (Bool-cases m.binary) [
        | inl audio ↦
            Displaces-audio d m ms q' audio full'
              (subst (λ xs. Displaces d xs q') (ground (arith, audio)) later')
        | inr control ↦
            Displaces-control d m ms q' control
              (subst (λ xs. Displaces d xs q') (ground (arith, control)) later')
      ])

Outcome-turn :
    (data_bytes : List ℕ) (s t u : Line) (m : Outgoing) (ms : List Outgoing) (w : Written)
    → s.conn.done ≡ false
    → length s.conn.write_ch ≡ conn_write_queue_depth
    → s.conn.write_ch ≡ m ∷ ms
    → IsTurned s t
    → Outcome data_bytes t u w
    → Outcome data_bytes s u w
Outcome-turn d s t u m ms Written.closed live full at turn (done, _, _) =
    absurd (ground (arith, turn.conn, ap (λ (c : Conn). c.done) turn.conn))
Outcome-turn d s t u m ms Written.queued live full at turn (_, open_still, more, moved) = (
  live,
  open_still,
  more ∙ ap (λ xs. xs ++ sound d ∷ []) turn.accepted,
  Displaces-turn d s.conn.write_ch u.conn.write_ch m ms at full (
      subst (λ xs. Displaces d xs u.conn.write_ch) (ap (λ (c : Conn). c.write_ch) turn.conn) moved),
)

IsUntouched-turn : {s t u : Line} → IsUntouched s t → IsUntouched t u → IsUntouched s u
IsUntouched-turn a b = record {
  hands = b.hands ∙ a.hands;
  writing = b.writing ∙ a.writing;
  sent = b.sent ∙ a.sent;
  stopped = b.stopped ∙ a.stopped;
}

IsUntouched-refl : (s : Line) → IsUntouched s s
IsUntouched-refl s = record { hands = refl; writing = refl; sent = refl; stopped = refl }

-- On a connection that senders and the writer brought to where it is, what writeAudio alone
-- returns, on however many turns, is where selects of the concurrent connection bring it from
-- there, and they leave as they were what senders hold, what the writer has written and has in
-- hand, and whether it has returned; if it returns that the connection is closed, it was, and
-- nothing was accepted; otherwise the frame alone was accepted, the control messages of the queue
-- are the same but that the first may have gone behind the others some number of times, and its
-- audio is what it was, less its oldest message if the queue was full and one had to go, with the
-- frame at the end.
pub write_audio-Turns :
    (turns : ℕ) (s : Line) (data_bytes : List ℕ) (cn : Conn) (w : Written)
    → Reach new_line s
    → write_audio turns s.conn data_bytes ≡ some (cn, w)
    → (t : Line) × Reach s t × (t.conn ≡ cn) × IsUntouched s t × Outcome data_bytes s t w
unfolding write_audio enqueue
write_audio-Turns zero s d cn w r h = absurd (ground arith)
write_audio-Turns (suc turns) s d cn w r h = elim (Bool-cases s.conn.done) [
  | inl closed ↦
      let verdict : w ≡ Written.closed = ground arith in
      (
        s,
        Reach.start,
        ground arith,
        IsUntouched-refl s,
        subst (Outcome d s s) (sym verdict) (closed, refl, refl),
      )
  | inr live ↦ elim (Bool-cases (ltb (length s.conn.write_ch) conn_write_queue_depth)) [
    | inl free ↦
        let verdict : w ≡ Written.queued = ground arith in
        (
          enqueue s (sound d),
          Reach.next Reach.start (Turn.enqueues (sound d) (ground arith)),
          ground arith,
          record { hands = refl; writing = refl; sent = refl; stopped = refl },
          subst (Outcome d s (enqueue s (sound d))) (sym verdict)
              (live, live, refl, Displaces-free d s.conn.write_ch),
        )
    | inr no_room ↦
        let bound = (Reach-IsTracked s r).bounded in
        let full : length s.conn.write_ch ≡ conn_write_queue_depth = ground arith in
        let (m, ms, at) = full_lem s full in
        let (t, turn) = turn_lem s m ms at bound in
        let (u, later, ends, kept, out) =
          write_audio-Turns turns t d cn w (Reach-trans r turn.reached)
            (ground (arith, turn.conn)) in
        (
          u,
          Reach-trans turn.reached later,
          ends,
          IsUntouched-turn turn.untouched kept,
          Outcome-turn d s t u m ms w live full at turn out,
        )
  ]
]
