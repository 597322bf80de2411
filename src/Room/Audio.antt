-- ===== src/Room/Audio.antt =====
-- The audio path of room.go and peer.go: the bounded queue, the fan-out, and a peer's transports.
pub mod FanOut
pub mod Queue
use network_ultra_server.Prelude.{
  ℕ, Bool, true, false, ◌&&◌, ◌||◌, not, List, [], ◌∷◌, ◌++◌, Option, none, some, ◌==◌, ltb,
  if◌then◌else◌, length, bytes_eq,
}
use network_ultra_server.Prelude.Maps.{Map, lookup, has}
use network_ultra_server.Room.State.{Uuid, Frame, Room, Peer}
use network_ultra_server.Room.Ops.{is_subscribed}

abbrev pub audio_ch_buffer : ℕ
audio_ch_buffer = 512

-- `if f.Done != nil { f.Done() }`: the callbacks that are called.
abbrev pub done_of : Frame → List ℕ
done_of f = elim f.done [ none ↦ [] | some d ↦ d ∷ [] ]

-- Room.Forward: the room, whether the frame was taken, and the callbacks that were called.
unfoldable pub forward : Room → Frame → Room × Bool × List ℕ
forward r f =
    if ltb (length r.audio_ch) audio_ch_buffer
    then (record r { audio_ch = r.audio_ch ++ f ∷ [] }, true, [])
    else (r, false, done_of f)

-- Where Peer.SendBinary put a payload.
pub data Route : Type 0 where
  over_udp over_websocket detached : Route

-- Peer.SendBinary; `udp_sent` is what the UDP sender returns for the payload.
unfoldable pub send_binary : Peer → Bool → Route
send_binary p udp_sent =
    if p.udp_send && udp_sent
    then Route.over_udp
    else if p.send
    then Route.over_websocket
    else Route.detached

pub record Delivery : Type 0 where
  pub to : Uuid
  pub route : Route
  pub payload : List ℕ

-- The peers that the loop under the room's lock collects.
unfoldable pub recipients : Uuid → Map Uuid Peer → Map Uuid (Unit {0}) → List Peer
recipients src store [] = []
recipients src store ((id, _) ∷ rest) =
    let others = recipients src store rest in
    if id == src then others else (elim (lookup id store) [
      | none ↦ others
      | some p ↦ if is_subscribed p src then p ∷ others else others
    ])

unfoldable pub send_all : (Uuid → List ℕ → Bool) → List ℕ → List Peer → List Delivery
send_all udp payload [] = []
send_all udp payload (p ∷ ps) =
    record { to = p.id; route = send_binary p (udp p.id payload); payload = payload }
    ∷ send_all udp payload ps

-- `source == nil || source.Muted()`, the other way round.
unfoldable pub speaks : Map Uuid Peer → Room → Uuid → Bool
speaks store r src =
    has src r.peers && (elim (lookup src store) [ none ↦ false | some p ↦ not p.muted ])

-- Room.fanOut: the payloads that are sent, and the callbacks that are called. `udp` says what the
-- UDP senders return.
unfoldable pub fan_out :
    (Uuid → List ℕ → Bool) → Map Uuid Peer → Room → Frame → List Delivery × List ℕ
fan_out udp store r f =
    if not (speaks store r f.source_peer_id)
    then ([], done_of f)
    else (send_all udp f.payload (recipients f.source_peer_id store r.peers), done_of f)

-- What the forwarder does to its queue once the room is closed.
unfoldable pub drain : List Frame → List ℕ
drain [] = []
drain (f ∷ fs) = done_of f ++ drain fs
