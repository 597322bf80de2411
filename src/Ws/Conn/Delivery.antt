-- ===== src/Ws/Conn/Delivery.antt =====
-- internal/ws/conn.go: what becomes of the messages that are queued.
use network_ultra_server.Prelude.{
  ℕ, ◌+◌, ◌≡◌, ◌≤◌, ◌<◌, refl, ap, sym, subst, inl, inr, Bool, true, false, List, [], ◌∷◌, ◌++◌,
  Option, none, some, arith, if◌then◌else◌, length, ltb, length-append, Bool-cases,
}
use network_ultra_server.Ws.Conn.{Outgoing, conn_write_queue_depth}
use network_ultra_server.Ws.Conn.Writer.{
  Line, Turn, Reach, new_line, with_queue, close, enqueue, give_up, take_front, put_back, pick_up,
  end_write, stop_writer,
}

-- How many of the messages are of a kind.
unfoldable pub count : (Outgoing → Bool) → List Outgoing → ℕ
count p [] = 0
count p (m ∷ ms) = (if p m then 1 else 0) + count p ms

abbrev pub count_writing : (Outgoing → Bool) → Option Outgoing → ℕ
count_writing p none = 0
count_writing p (some m) = if p m then 1 else 0

abbrev pub on_the_way : (Outgoing → Bool) → Line → ℕ
on_the_way p s =
    count p s.sent + count_writing p s.writing + count p s.conn.write_ch + count p s.hands

count-append :
    (p : Outgoing → Bool) (xs ys : List Outgoing) → count p (xs ++ ys) ≡ count p xs + count p ys
unfolding count
count-append p [] ys = omega arith
count-append p (x ∷ xs) ys = omega (arith, count-append p xs ys)

-- Nothing is on the way that was not accepted, and no control message is missing while the
-- connection is open.
pub record IsTracked (s : Line) : Type 0 where
  pub bounded : length s.conn.write_ch ≤ conn_write_queue_depth
  pub within : (p : Outgoing → Bool) → on_the_way p s ≤ count p s.accepted
  pub complete :
      s.conn.done ≡ false
      → (p : Outgoing → Bool) → ((m : Outgoing) → p m ≡ true → m.binary ≡ false)
      → on_the_way p s ≡ count p s.accepted

start-IsTracked : IsTracked new_line
unfolding count
start-IsTracked = record {
  bounded = omega arith;
  within = λ p. omega arith;
  complete = λ o p c. refl;
}

count-one :
    (p : Outgoing → Bool) (xs : List Outgoing) (m : Outgoing)
    → count p (xs ++ m ∷ []) ≡ count p xs + (if p m then 1 else 0)
unfolding count
count-one p xs m = omega (arith, count-append p xs (m ∷ []))

control_front :
    (s : Line) (m : Outgoing) (ms : List Outgoing)
    → m.binary ≡ false
    → take_front s m ms ≡ record s { conn = with_queue s.conn ms; hands = m ∷ s.hands }
unfolding take_front
control_front s m ms control = ground arith

module _ (s : Line) (ok : IsTracked s) where
  enqueue-IsTracked :
      (m : Outgoing) → length s.conn.write_ch < conn_write_queue_depth → IsTracked (enqueue s m)
  unfolding enqueue
  enqueue-IsTracked m free = record {
    bounded = ground (arith, length-append s.conn.write_ch (m ∷ []));
    within =
        λ p. omega (arith, ok.within p, count-one p s.conn.write_ch m, count-one p s.accepted m);
    complete = λ o p c.
        omega (arith, ok.complete o p c, count-one p s.conn.write_ch m, count-one p s.accepted m);
  }

  give_up-IsTracked : IsTracked (give_up s)
  unfolding give_up close
  give_up-IsTracked = record {
    bounded = ok.bounded;
    within = ok.within;
    complete = λ o p c. absurd (ground arith);
  }

  take_front-IsTracked :
      (m : Outgoing) (ms : List Outgoing) → s.conn.write_ch ≡ m ∷ ms → IsTracked (take_front s m ms)
  unfolding take_front count
  take_front-IsTracked m ms at = elim (Bool-cases m.binary) [
    | inl audio ↦
        rw (audio, take_front)
          (record {
            bounded = ground (arith, ok.bounded, at);
            within = λ p. omega (arith, ok.within p, ap (count p) at);
            complete = λ o p c. ground (arith, ok.complete o p c, ap (count p) at, c m);
          })
    | inr control ↦ subst IsTracked (sym (control_front s m ms control)) (record {
      bounded = ground (arith, ok.bounded, at);
      within = λ p. omega (arith, ok.within p, ap (count p) at);
      complete = λ o p c. omega (arith, ok.complete o p c, ap (count p) at);
    })
  ]

  put_back-IsTracked :
      (before : List Outgoing) (m : Outgoing) (after : List Outgoing)
      → s.hands ≡ before ++ m ∷ after
      → IsTracked (put_back s before m after)
  unfolding put_back count close
  put_back-IsTracked before m after at =
      elim (Bool-cases (ltb (length s.conn.write_ch) conn_write_queue_depth)) [
        | inl free ↦
            rw (free, put_back)
              (record {
                bounded = ground (arith, length-append s.conn.write_ch (m ∷ []), free);
                within = λ p. omega (
                  arith,
                  ok.within p,
                  ap (count p) at,
                  count-append p before after,
                  count-append p before (m ∷ after),
                  count-one p s.conn.write_ch m,
                );
                complete = λ o p c. omega (
                  arith,
                  ok.complete o p c,
                  ap (count p) at,
                  count-append p before after,
                  count-append p before (m ∷ after),
                  count-one p s.conn.write_ch m,
                );
              })
        | inr full ↦
            rw (full, put_back)
              (record {
                bounded = ok.bounded;
                within = λ p. omega (
                  arith,
                  ok.within p,
                  ap (count p) at,
                  count-append p before after,
                  count-append p before (m ∷ after),
                );
                complete = λ o p c. absurd (ground arith);
              })
      ]

  pick_up-IsTracked :
      (m : Outgoing) (ms : List Outgoing)
      → s.writing ≡ none
      → s.conn.write_ch ≡ m ∷ ms
      → IsTracked (pick_up s m ms)
  unfolding pick_up count
  pick_up-IsTracked m ms idle at = record {
    bounded = ground (arith, ok.bounded, at);
    within = λ p. omega (arith, ok.within p, ap (count p) at, ap (count_writing p) idle);
    complete =
        λ o p c. omega (arith, ok.complete o p c, ap (count p) at, ap (count_writing p) idle);
  }

  end_write-IsTracked :
      (m : Outgoing) (failed : Bool) → s.writing ≡ some m → IsTracked (end_write s m failed)
  unfolding end_write count close
  end_write-IsTracked m true at = record {
    bounded = ok.bounded;
    within = λ p. omega (arith, ok.within p, ap (count_writing p) at);
    complete = λ o p c. absurd (ground arith);
  }
  end_write-IsTracked m false at = record {
    bounded = ok.bounded;
    within = λ p. omega (arith, ok.within p, ap (count_writing p) at, count-one p s.sent m);
    complete =
        λ o p c. omega (arith, ok.complete o p c, ap (count_writing p) at, count-one p s.sent m);
  }

  stop_writer-IsTracked : IsTracked (stop_writer s)
  unfolding stop_writer
  stop_writer-IsTracked = record {
    bounded = ok.bounded;
    within = ok.within;
    complete = ok.complete;
  }

Turn-IsTracked : (s t : Line) → Turn s t → IsTracked s → IsTracked t
Turn-IsTracked s t (Turn.enqueues m free) ok = enqueue-IsTracked s ok m free
Turn-IsTracked s t Turn.gives_up ok = give_up-IsTracked s ok
Turn-IsTracked s t (Turn.takes m ms at) ok = take_front-IsTracked s ok m ms at
Turn-IsTracked s t (Turn.puts_back before m after at) ok = put_back-IsTracked s ok before m after at
Turn-IsTracked s t (Turn.receives m ms runs idle at) ok = pick_up-IsTracked s ok m ms idle at
Turn-IsTracked s t (Turn.writes m failed at) ok = end_write-IsTracked s ok m failed at
Turn-IsTracked s t (Turn.leaves closed idle) ok = stop_writer-IsTracked s ok

-- However the selects of the writer goroutine and of any number of senders on a new connection
-- come after each other, the queue stays within its depth; of every kind of message no more are
-- sent, being written, queued or held by a sender than were accepted; and while the connection is
-- open, of every kind of control message exactly as many.
pub Reach-IsTracked : (s : Line) → Reach new_line s → IsTracked s
Reach-IsTracked s Reach.start = start-IsTracked
Reach-IsTracked s (Reach.next {t = t} r turn) = Turn-IsTracked t s turn (Reach-IsTracked t r)
