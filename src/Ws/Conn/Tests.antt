-- ===== src/Ws/Conn/Tests.antt =====
-- internal/ws/conn.go: an answer and a frame on their way out.
use network_ultra_server.Prelude.{◌≡◌, refl, true, false, [], ◌∷◌, some, arith}
use network_ultra_server.Ws.Conn.{Outgoing, Conn, Written, write_audio}
use network_ultra_server.Ws.Conn.Writer.{
  Line, Turn, Reach, new_line, enqueue, take_front, put_back, pick_up, end_write,
}
use network_ultra_server.Ws.Conn.Delivery.{IsTracked, Reach-IsTracked}
use network_ultra_server.Ws.Conn.Turns.{IsUntouched, Outcome, write_audio-Turns}

abbrev answer : Outgoing
answer = record { binary = false; payload = 65 ∷ [] }

abbrev frame : Outgoing
frame = record { binary = true; payload = 1 ∷ 2 ∷ [] }

abbrev both_queued : Line
both_queued = enqueue (enqueue new_line answer) frame

-- A sender of audio takes the answer off and puts it back, behind the frame.
abbrev turned : Line
turned = put_back (take_front both_queued answer (frame ∷ [])) [] answer []

abbrev frame_written : Line
frame_written = end_write (pick_up turned frame (answer ∷ [])) frame false

out_of_order : frame_written.conn.write_ch ≡ answer ∷ []
unfolding enqueue take_front put_back pick_up end_write
out_of_order = refl

run : Reach new_line frame_written
unfolding enqueue take_front put_back pick_up end_write
run =
    Reach.next
      (Reach.next
        (Reach.next
          (Reach.next
            (Reach.next (Reach.next Reach.start (Turn.enqueues answer (omega arith)))
              (Turn.enqueues frame (omega arith)))
            (Turn.takes answer (frame ∷ []) refl))
          (Turn.puts_back [] answer [] refl))
        (Turn.receives frame (answer ∷ []) refl refl refl))
      (Turn.writes frame false refl)

Reach-IsTracked_example : IsTracked frame_written
Reach-IsTracked_example = Reach-IsTracked frame_written run

abbrev queued_three : Conn
queued_three = record {
  write_ch = frame ∷ answer ∷ record { binary = true; payload = 3 ∷ [] } ∷ [];
  done = false;
}

three_queued : write_audio 1 turned.conn (3 ∷ []) ≡ some (queued_three, Written.queued)
unfolding write_audio enqueue take_front put_back
three_queued = refl

run_to_turned : Reach new_line turned
unfolding enqueue take_front put_back
run_to_turned =
    Reach.next
      (Reach.next
        (Reach.next (Reach.next Reach.start (Turn.enqueues answer (omega arith)))
          (Turn.enqueues frame (omega arith)))
        (Turn.takes answer (frame ∷ []) refl))
      (Turn.puts_back [] answer [] refl)

write_audio-Turns_example :
    (t : Line) × Reach turned t
    × (t.conn ≡ queued_three)
    × IsUntouched turned t
    × Outcome (3 ∷ []) turned t Written.queued
write_audio-Turns_example =
    write_audio-Turns 1 turned (3 ∷ []) queued_three Written.queued run_to_turned three_queued
