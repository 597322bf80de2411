-- ===== src/Ws/State.antt =====
-- The state of internal/ws/dispatch.go, and what its handlers send.
use Prim.Native.String.{◌++◌ as append}
use network_ultra_server.Prelude.{
  ℕ, String, Bool, List, [], ◌∷◌, ◌++◌, Option, none, some, ◌==◌, ltb, leb, nat_eqb, if◌then◌else◌,
  bytes_eq, string_eq,
}
use network_ultra_server.Prelude.Maps.{Map, lookup}
use network_ultra_server.RateLimit.Limiter.{Limiter, allow_pair}
use network_ultra_server.Room.State.{Uuid, Peer, Room, World, PeerSnapshot, RoomListEntry}

pub record RateLimits : Type 0 where
  pub hello_per_ip_per_minute : ℕ
  pub room_create_per_peer_per_minute : ℕ
  pub room_join_per_peer_per_minute : ℕ
  pub room_list_per_peer_per_minute : ℕ
  pub control_per_peer_per_minute : ℕ
  pub audio_frames_per_peer_per_sec : ℕ
  pub password_checks_concurrent : ℕ

-- The error codes that the handlers send.
pub data ErrorCode : Type 0 where
  rate_limited protocol_error already_in_room not_in_room room_name_taken : ErrorCode
  server_full room_full room_not_found bad_password internal_error : ErrorCode
  bad_username server_password_required bad_server_password : ErrorCode

-- A message to a client, before it is encoded; `String` first is the request's identifier.
pub data Message : Type 0 where
  error : String → ErrorCode → Message
  welcome : String → Uuid → Option (List ℕ) → Message
  room_joined : String → Uuid → String → List PeerSnapshot → Message
  room_left : String → Message
  room_list_result : String → List RoomListEntry → Message
  pong : String → ℕ → ℕ → Message
  peer_joined : PeerSnapshot → Message
  peer_left : Uuid → String → Message
  peer_mute_changed : Uuid → Bool → Message

pub record Envelope : Type 0 where
  pub type_name : String
  pub v : ℕ
  pub id : String
  pub data_bytes : List ℕ

pub record HelloData : Type 0 where
  pub username : String
  pub server_password : String

pub record RoomCreateData : Type 0 where
  pub room_name : String
  pub visibility : String
  pub password : String

pub record RoomJoinData : Type 0 where
  pub room_name : String
  pub password : String
  pub role : String

-- What the handlers call of other libraries: encoding/json, once for each type that it fills,
-- bcrypt, and the text form of UUIDs; with utf8.Valid and strings.ToLower, which stand for
-- Unicode's tables.
pub record Libraries : Type 0 where
  pub unmarshal_envelope : List ℕ → Option Envelope
  pub unmarshal_hello : List ℕ → Option HelloData
  pub unmarshal_room_create : List ℕ → Option RoomCreateData
  pub unmarshal_room_join : List ℕ → Option RoomJoinData
  pub unmarshal_peer_mute : List ℕ → Option Bool
  pub unmarshal_subscribe : List ℕ → Option (List String)
  pub unmarshal_ping : List ℕ → ℕ
  pub compare_hash : Option (List ℕ) → List ℕ → Bool
  pub generate_hash : List ℕ → Option (List ℕ)
  pub uuid_string : Uuid → String
  pub uuid_parse : String → Option Uuid
  pub utf8_valid : List ℕ → Bool
  pub to_lower : String → String

-- Server, with the registry's world; `outbox` is what has been sent, and to whom.
-- `passwords_running` counts the slots of passwordSem that are taken.
pub record Hub : Type 0 where
  pub world : World
  pub rate_limits : RateLimits
  pub server_password_hash : List ℕ
  pub hello_limiter : Limiter
  pub peer_limiter : Limiter
  pub passwords_running : ℕ
  pub outbox : List (Uuid × Message)

-- messages.go, Decode: the envelope's version is 1 where it is left out.
unfoldable pub decode : Libraries → List ℕ → Option Envelope
decode lib bytes = elim (lib.unmarshal_envelope bytes) [
  | none ↦ none
  | some env ↦
      if env.type_name == ""
      then none
      else some (record env { v = if nat_eqb env.v 0 then 1 else env.v })
]

abbrev pub send : Hub → Uuid → Message → Hub
send h id m = record h { outbox = h.outbox ++ (id, m) ∷ [] }

abbrev pub send_error : Hub → Uuid → String → ErrorCode → Hub
send_error h id request code = send h id (Message.error request code)

-- Room.ForEachPeer with SendText, which sends nothing to a peer whose sender is detached.
unfoldable pub to_others :
    Map Uuid Peer → Uuid → Message → Map Uuid (Unit {0}) → List (Uuid × Message)
to_others store except m [] = []
to_others store except m ((id, _) ∷ rest) =
    let others = to_others store except m rest in
    if id == except then others else (elim (lookup id store) [
      | none ↦ others
      | some p ↦ if p.send then (id, m) ∷ others else others
    ])

unfoldable pub broadcast_to_others : Hub → Room → Uuid → Message → Hub
broadcast_to_others h r except m = record h {
  outbox = h.outbox ++ to_others h.world.peers except m r.peers;
}

unfoldable pub allow_peer : Libraries → Hub → Peer → String → ℕ → ℕ → ℕ → Hub × Bool
allow_peer lib h p action limit window now =
    let (limiter, allowed) =
      allow_pair h.peer_limiter now
        (append "peer:" (append (lib.uuid_string p.id) (append ":" action)))
        (append "ip:" (append p.remote_ip (append ":" action))) limit window in
    (record h { peer_limiter = limiter }, allowed)

-- initSecurity: `if cap <= 0 { cap = 4 }`
unfoldable pub password_slots : RateLimits → ℕ
password_slots limits =
    if leb limits.password_checks_concurrent 0 then 4 else limits.password_checks_concurrent

-- doPasswordWork: the work's result, or none if every slot is taken. The work takes its slot and
-- gives it back within the handler's step.
unfoldable pub do_password_work {ℓ} : {A : Type ℓ} → Hub → A → Option A
do_password_work h result =
    if ltb h.passwords_running (password_slots h.rate_limits) then some result else none
