-- ===== src/Ws/Conn/Writer.antt =====
-- internal/ws/conn.go: the writer goroutine beside any number of senders, one select at a time.
use network_ultra_server.Prelude.{
  ◌≡◌, ◌<◌, Bool, true, false, List, [], ◌∷◌, ◌++◌, Option, none, some, if◌then◌else◌, length, ltb,
}
use network_ultra_server.Ws.Conn.{Outgoing, Conn, conn_write_queue_depth}

-- The connection; the control messages that senders of audio took off the full queue and hold; the
-- message that the writer has in hand and whether it has returned; and, for the theorems, what went
-- out on the socket and what was accepted into the queue.
pub record Line : Type 0 where
  pub conn : Conn
  pub hands : List Outgoing
  pub writing : Option Outgoing
  pub stopped : Bool
  pub sent : List Outgoing
  pub accepted : List Outgoing

abbrev pub with_queue : Conn → List Outgoing → Conn
with_queue cn q = record cn { write_ch = q }

-- close, whose effect is there once.
unfoldable pub close : Conn → Conn
close cn = record cn { done = true }

-- The first case of the selects of writeControl, and of the first of writeAudio.
unfoldable pub enqueue : Line → Outgoing → Line
enqueue s m = record s {
  conn = with_queue s.conn (s.conn.write_ch ++ m ∷ []);
  accepted = s.accepted ++ m ∷ [];
}

-- The timer of writeControl.
unfoldable pub give_up : Line → Line
give_up s = record s { conn = close s.conn }

-- The second select of writeAudio takes the front: audio is dropped, anything else is held.
unfoldable pub take_front : Line → Outgoing → List Outgoing → Line
take_front s m ms =
    if m.binary
    then record s { conn = with_queue s.conn ms }
    else record s { conn = with_queue s.conn ms; hands = m ∷ s.hands }

-- Its third select: what is held goes behind, or the queue is full again and the connection dead.
unfoldable pub put_back : Line → List Outgoing → Outgoing → List Outgoing → Line
put_back s before m after =
    if ltb (length s.conn.write_ch) conn_write_queue_depth
    then record s { conn = with_queue s.conn (s.conn.write_ch ++ m ∷ []); hands = before ++ after }
    else record s { conn = close s.conn; hands = before ++ after }

-- writeLoop: its select, and what comes of the write.
unfoldable pub pick_up : Line → Outgoing → List Outgoing → Line
pick_up s m ms = record s { conn = with_queue s.conn ms; writing = some m }

unfoldable pub end_write : Line → Outgoing → Bool → Line
end_write s m failed =
    if failed
    then record s { conn = close s.conn; writing = none; stopped = true }
    else record s { writing = none; sent = s.sent ++ m ∷ [] }

unfoldable pub stop_writer : Line → Line
stop_writer s = record s { stopped = true }

-- What any goroutine does in one select. A select that finds the connection closed and another case
-- ready takes either.
pub data Turn (s : Line) : Line → Type 0 where
  enqueues : (m : Outgoing) → length s.conn.write_ch < conn_write_queue_depth → Turn s (enqueue s m)
  gives_up : Turn s (give_up s)
  takes :
      (m : Outgoing) (ms : List Outgoing) → s.conn.write_ch ≡ m ∷ ms → Turn s (take_front s m ms)
  puts_back :
      (before : List Outgoing) (m : Outgoing) (after : List Outgoing)
      → s.hands ≡ before ++ m ∷ after
      → Turn s (put_back s before m after)
  receives :
      (m : Outgoing) (ms : List Outgoing)
      → s.stopped ≡ false
      → s.writing ≡ none
      → s.conn.write_ch ≡ m ∷ ms
      → Turn s (pick_up s m ms)
  writes : (m : Outgoing) (failed : Bool) → s.writing ≡ some m → Turn s (end_write s m failed)
  leaves : s.conn.done ≡ true → s.writing ≡ none → Turn s (stop_writer s)

pub data Reach (s : Line) : Line → Type 0 where
  start : Reach s s
  next : {t u : Line} → Reach s t → Turn t u → Reach s u

-- newConn
abbrev pub new_line : Line
new_line = record {
  conn = record { write_ch = []; done = false };
  hands = [];
  writing = none;
  stopped = false;
  sent = [];
  accepted = [];
}
