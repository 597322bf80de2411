-- ===== src/Room/Audio/Queue.antt =====
-- The queue of a room, its forwarder, and the callbacks of the frames.
use network_ultra_server.Prelude.{
  ℕ, ◌+◌, ◌≤◌, ◌≡◌, refl, Bool, List, [], ◌∷◌, ◌++◌, arith, nat_eqb, if◌then◌else◌, length,
  length-append, ap, Bool-cases, inl, inr, ltb,
}
use network_ultra_server.Prelude.Maps.{Map}
use network_ultra_server.Room.State.{Uuid, Frame, Room, Peer}
use network_ultra_server.Room.Audio.{audio_ch_buffer, done_of, forward, fan_out, drain}

-- What happens to a room's queue: a frame comes in, the forwarder takes the oldest one, or the
-- room closes and the forwarder drains the queue.
pub data Event : Type 0 where
  offers : Frame → Event
  forwards : Event
  closes : Event

pub record Forwarder : Type 0 where
  pub room : Room
  pub offered : List ℕ
  pub called : List ℕ

unfoldable pub count : ℕ → List ℕ → ℕ
count t [] = 0
count t (x ∷ xs) = (if nat_eqb x t then 1 else 0) + count t xs

count-append : (t : ℕ) (xs ys : List ℕ) → count t (xs ++ ys) ≡ count t xs + count t ys
unfolding count
count-append t [] ys = omega arith
count-append t (x ∷ xs) ys = omega (arith, count-append t xs ys)

drain-append :
    (fs gs : List Frame) (t : ℕ)
    → count t (drain (fs ++ gs)) ≡ count t (drain fs) + count t (drain gs)
unfolding drain count
drain-append [] gs t = omega arith
drain-append (f ∷ fs) gs t = omega (
  arith,
  count-append t (done_of f) (drain (fs ++ gs)),
  count-append t (done_of f) (drain fs),
  drain-append fs gs t,
)

-- The callbacks that were called, and those of the frames that still wait, are together the
-- callbacks of the frames that were offered.
pub record Accounts (s : Forwarder) : Type 0 where
  pub bounded : length s.room.audio_ch ≤ audio_ch_buffer
  pub once : (t : ℕ) → count t s.called + count t (drain s.room.audio_ch) ≡ count t s.offered

module _ (udp : Uuid → List ℕ → Bool) (store : Map Uuid Peer) where
  take_oldest : Forwarder → List Frame → Forwarder
  take_oldest s [] = s
  take_oldest s (f ∷ fs) = record s {
    room = record s.room { audio_ch = fs };
    called = s.called ++ (fan_out udp store s.room f).1;
  }

  unfoldable pub step : Forwarder → Event → Forwarder
  unfolding take_oldest
  step s (Event.offers f) =
      let (r, taken, calls) = forward s.room f in
      record s { room = r; offered = s.offered ++ done_of f; called = s.called ++ calls }
  step s Event.forwards = take_oldest s s.room.audio_ch
  step s Event.closes = record s {
    room = record s.room { audio_ch = [] };
    called = s.called ++ drain s.room.audio_ch;
  }

  unfoldable pub run : Forwarder → List Event → Forwarder
  run s [] = s
  run s (e ∷ es) = run (step s e) es

  fan_out-done : (r : Room) (f : Frame) → (fan_out udp store r f).1 ≡ done_of f
  unfolding fan_out
  fan_out-done r f = ground arith

  offers-Accounts : (s : Forwarder) (f : Frame) → Accounts s → Accounts (step s (Event.offers f))
  unfolding step forward
  offers-Accounts s f a = elim (Bool-cases (ltb (length s.room.audio_ch) audio_ch_buffer)) [
    | inl room ↦ rw room (record {
      bounded = ground (arith, length-append {0} s.room.audio_ch (f ∷ []), room);
      once = λ t.
          unfold drain count in
          omega (
            arith,
            a.once t,
            drain-append s.room.audio_ch (f ∷ []) t,
            count-append t s.called [],
            count-append t s.offered (done_of f),
            count-append t (done_of f) [],
          );
    })
    | inr full ↦ rw full (record {
      bounded = a.bounded;
      once = λ t. omega (
        arith,
        a.once t,
        count-append t s.called (done_of f),
        count-append t s.offered (done_of f),
      );
    })
  ]

  take-Accounts :
      (s : Forwarder) (fs : List Frame)
      → s.room.audio_ch ≡ fs
      → Accounts s
      → Accounts (take_oldest s fs)
  unfolding take_oldest drain
  take-Accounts s [] e a = a
  take-Accounts s (f ∷ fs) e a = record {
    bounded = omega (arith, a.bounded, ap length e);
    once = λ t. rw (fan_out-done s.room f) (
        omega (
          arith,
          a.once t,
          ap (λ (q : List Frame). count t (drain q)) e,
          count-append t s.called (done_of f),
          count-append t (done_of f) (drain fs),
        ));
  }

  closes-Accounts : (s : Forwarder) → Accounts s → Accounts (step s Event.closes)
  unfolding step
  closes-Accounts s a = record {
    bounded = omega arith;
    once = λ t.
        unfold drain count in
        omega (arith, a.once t, count-append t s.called (drain s.room.audio_ch));
  }

  step-Accounts : (s : Forwarder) (e : Event) → Accounts s → Accounts (step s e)
  step-Accounts s (Event.offers f) a = offers-Accounts s f a
  step-Accounts s Event.forwards a = unfold step in take-Accounts s s.room.audio_ch refl a
  step-Accounts s Event.closes a = closes-Accounts s a

  -- Through any sequence of frames offered, frames forwarded and closings, the queue stays within
  -- its bound, and each callback of an offered frame has been called once for each time that it
  -- was offered, or its frame still waits.
  pub run-Accounts : (s : Forwarder) (es : List Event) → Accounts s → Accounts (run s es)
  unfolding run
  run-Accounts s [] a = a
  run-Accounts s (e ∷ es) a = run-Accounts (step s e) es (step-Accounts s e a)
