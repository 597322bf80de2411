-- ===== src/Ws/Conn.antt =====
-- internal/ws/conn.go: the bounded write queue of a connection. The writer goroutine takes from
-- the front; a sender's retry is one more turn of its loop.
pub mod Displace
pub mod Writer
pub mod Delivery
pub mod Kept
pub mod Turns
mod Tests
use network_ultra_server.Prelude.{
  ℕ, ◌+◌, ◌≡◌, ◌≢◌, ◌≤◌, ◌<◌, refl, ap, ◌∙◌, sym, ◌⊎◌, inl, inr, Bool, true, false, List, [], ◌∷◌,
  ◌++◌, Option, none, some, arith, if◌then◌else◌, zero, suc, length, ltb, length-append, Bool-cases,
}

abbrev pub conn_write_queue_depth : ℕ
conn_write_queue_depth = 1024

-- A message of the queue: whether it is binary, and its bytes.
pub record Outgoing : Type 0 where
  pub binary : Bool
  pub payload : List ℕ

pub record Conn : Type 0 where
  pub write_ch : List Outgoing
  pub done : Bool

-- What became of a frame that is to be written.
pub data Written : Type 0 where
  queued closed : Written

-- The second select of writeAudio, at a full queue: the front is taken off, and put back behind
-- if it is a control message.
unfoldable pub make_room : List Outgoing → List Outgoing
make_room [] = []
make_room (m ∷ ms) = if m.binary then ms else ms ++ m ∷ []

-- writeAudio, with nobody else at the queue meanwhile; none if the turns do not suffice. Where a
-- select finds the connection closed and the queue not full, which of the two it takes is Go's
-- choice; here it is the first.
unfoldable pub write_audio : ℕ → Conn → List ℕ → Option (Conn × Written)
write_audio zero cn data_bytes = none
write_audio (suc turns) cn data_bytes =
    let retry = write_audio turns (record cn { write_ch = make_room cn.write_ch }) data_bytes in
    if cn.done
    then some (cn, Written.closed)
    else if ltb (length cn.write_ch) conn_write_queue_depth
    then some (
      record cn { write_ch = cn.write_ch ++ record { binary = true; payload = data_bytes } ∷ [] },
      Written.queued,
    )
    else retry

-- writeControl; `later` is the connection at the end of the wait for room, none if the timer fired
-- first.
unfoldable pub write_control : Conn → List ℕ → Option Conn → Conn × Written
write_control cn data_bytes later =
    let m : Outgoing = record { binary = false; payload = data_bytes } in
    if cn.done
    then (cn, Written.closed)
    else if ltb (length cn.write_ch) conn_write_queue_depth
    then (record cn { write_ch = cn.write_ch ++ m ∷ [] }, Written.queued)
    else (elim later [
      | none ↦ (record cn { done = true }, Written.closed)
      | some cn' ↦
          if cn'.done
          then (cn', Written.closed)
          else (record cn' { write_ch = cn'.write_ch ++ m ∷ [] }, Written.queued)
    ])

-- Conn.write
unfoldable pub write : ℕ → Conn → Outgoing → Option Conn → Option (Conn × Written)
write turns cn m later =
    if m.binary then write_audio turns cn m.payload else some (write_control cn m.payload later)
