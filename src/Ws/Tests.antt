-- ===== src/Ws/Tests.antt =====
-- internal/ws on small servers: a hello, a created room, a join, the end of a session, and full
-- queues.
use network_ultra_server.Prelude.{
  ℕ, ◌+◌, ◌≡◌, ◌≢◌, ◌⊎◌, refl, String, true, false, List, [], ◌∷◌, ◌++◌, Option, none, some, ◌==◌,
  string_eq, bytes_eq, replicate, zero, suc, if◌then◌else◌,
}
use network_ultra_server.Prelude.Maps.{lookup, insert, has}
use network_ultra_server.RateLimit.Limiter
use network_ultra_server.RateLimit.Limiter.{
  allow, normalize_key, current_entry, admit_new, ensure_capacity, after_consume,
}
use network_ultra_server.Room.State.{Uuid, Peer, Room, new_registry, put_peer, put_room}
use network_ultra_server.Room.Ops.{new_peer}
use network_ultra_server.Room.Invariant.{Coherent}
use network_ultra_server.Room.Invariant.Runs.{Step, Reach, Reach-Coherent, new_registry-Coherent}
use network_ultra_server.Udp.State.{UdpAddr, addr_eq, Binding, new_server}
use network_ultra_server.Ws.Labels.{valid_human_label, runes, trim_space, has_control, bytes_of}
use network_ultra_server.Ws.State.{
  Hub, RateLimits, ErrorCode, Envelope, HelloData, RoomJoinData, Libraries, decode,
}
use network_ultra_server.Ws.Rooms.{handle_room_join, join_peer_to_room, known_role, cleanup_peer}
use network_ultra_server.Ws.Control.{AudioVerdict, handle_audio, handle_control}
use network_ultra_server.Ws.Audio.{Queues, queued, handle_audio-Queues}
use network_ultra_server.Ws.Closing.{close_session_silent}
use network_ultra_server.Proto.Audio.{AudioFrameHeader}
use network_ultra_server.Udp.Binding.{IsBound}
use network_ultra_server.Udp.Binding.Runs.{new_server-IsBound}
use network_ultra_server.Ws.Session.{
  System, Opening, open_session, close_session, read_hello, refuse_hello, check_server_password,
  admit,
}
use network_ultra_server.Ws.Messages.{handle_control-Reach}
use network_ultra_server.Ws.Disconnect.{cleanup_peer_gone}
use network_ultra_server.Ws.Access.{Entitled, charged, handle_room_join_cases}
use network_ultra_server.Ws.Admission.{Shows, open_session_admits, open_session_rejected}
use network_ultra_server.Ws.Conn.{Outgoing, Conn, Written, write_audio}
use network_ultra_server.Ws.Conn.Displace.{sound, write_audio_displaces, write_audio_spins}

abbrev alice_id : Uuid
alice_id = replicate 16 1

abbrev bob_id : Uuid
bob_id = replicate 16 2

abbrev room_id : Uuid
room_id = replicate 16 9

abbrev envelope_of : List ℕ → Option Envelope
envelope_of [] = none
envelope_of (zero ∷ rest) =
    some (record { type_name = "hello"; v = 1; id = "a"; data_bytes = rest })
envelope_of (suc n ∷ rest) =
    some (record { type_name = "room_create"; v = 0; id = "b"; data_bytes = rest })

abbrev parse : String → Option Uuid
parse text = if text == "one" then some alice_id else if text == "two" then some bob_id else none

-- Codecs that know a few payloads.
abbrev lib : Libraries
lib = record {
  unmarshal_envelope = envelope_of;
  unmarshal_hello = λ bytes. some (record { username = " bob "; server_password = "" });
  unmarshal_room_create =
      λ bytes. some (record { room_name = "jam"; visibility = "public"; password = "" });
  unmarshal_room_join = λ bytes. some (record { room_name = "jam"; password = ""; role = "send" });
  unmarshal_peer_mute = λ bytes. some true;
  unmarshal_subscribe = λ bytes. some [];
  unmarshal_ping = λ bytes. 0;
  compare_hash = λ hash password. true;
  generate_hash = λ password. some password;
  uuid_string = λ id. "peer";
  uuid_parse = parse;
  utf8_valid = λ bytes. true;
  to_lower = λ s. s;
}

abbrev limits : RateLimits
limits = record {
  hello_per_ip_per_minute = 0;
  room_create_per_peer_per_minute = 6;
  room_join_per_peer_per_minute = 6;
  room_list_per_peer_per_minute = 6;
  control_per_peer_per_minute = 60;
  audio_frames_per_peer_per_sec = 200;
  password_checks_concurrent = 4;
}

abbrev alice : Peer
alice = record (new_peer alice_id 10 "alice" "") { send = true }

abbrev hub : Hub
hub = record {
  world = put_peer (put_peer (new_registry 4 8) (new_peer alice_id 10 "alice" "")) alice;
  rate_limits = limits;
  server_password_hash = [];
  hello_limiter = Limiter.new;
  peer_limiter = Limiter.new;
  passwords_running = 0;
  outbox = [];
}

abbrev system : System
system = record { hub = hub; has_udp = true; udp = new_server 10 100 }

hub-Coherent : Coherent hub.world
unfolding lookup insert
hub-Coherent = Reach-Coherent lib.to_lower (new_registry-Coherent 4 8) (
    Reach.next (Reach.next Reach.here (Step.connects alice_id 10 "alice" "" refl))
      (Step.touches (new_peer alice_id 10 "alice" "") alice refl (refl, refl)))

alice_stored : lookup alice_id hub.world.peers ≡ some alice
unfolding lookup insert
alice_stored = refl

no_room : lookup room_id hub.world.rooms ≡ none
unfolding lookup
no_room = refl

handle_control-Reach_example :
    Reach lib.to_lower hub.world (handle_control lib hub alice (1 ∷ []) room_id 20).world
    × Coherent (handle_control lib hub alice (1 ∷ []) room_id 20).world
handle_control-Reach_example =
    handle_control-Reach lib hub alice (1 ∷ []) room_id 20 hub-Coherent alice_stored no_room

cleanup_peer_gone_example :
    ((q : Peer) × (lookup alice_id (cleanup_peer hub alice "disconnect").world.peers ≡ some q)
      × (q.cur_room ≡ none))
    × ((id : Uuid) (r : Room)
        → lookup id (cleanup_peer hub alice "disconnect").world.rooms ≡ some r
        → has alice_id r.peers ≡ false)
    × Coherent (cleanup_peer hub alice "disconnect").world
cleanup_peer_gone_example = cleanup_peer_gone lib hub alice alice_stored hub-Coherent "disconnect"

abbrev join_envelope : Envelope
join_envelope = record { type_name = "room_join"; v = 1; id = "c"; data_bytes = [] }

handle_room_join_cases_example :
    ((handle_room_join lib hub alice join_envelope 20).world ≡ hub.world)
    ⊎ ((d : RoomJoinData) × (r : Room) × Entitled lib alice join_envelope hub d r
        × (alice.cur_room ≡ none)
        × (handle_room_join lib hub alice join_envelope 20
            ≡ join_peer_to_room
                (charged lib alice join_envelope hub 20)
                alice
                r
                (known_role d.role)
                "c"))
handle_room_join_cases_example = handle_room_join_cases lib alice join_envelope hub 20

abbrev bob : Peer
bob = record (new_peer bob_id 30 "bob" "") { remote_ip = "10.0.0.7"; send = true; udp_send = true }

hello_opens :
    (open_session lib system true (0 ∷ []) "10.0.0.7" bob_id 30 false none).1 ≡ Opening.opened bob
unfolding open_session allow decode read_hello refuse_hello valid_human_label runes trim_space
    has_control bytes_of check_server_password admit
hello_opens = refl

open_session_admits_example :
    (env : Envelope) × (d : HelloData) × (decode lib (0 ∷ []) ≡ some env)
    × Shows lib system (0 ∷ []) "10.0.0.7" bob_id 30 false none bob env d
    × (lookup bob_id
          (open_session lib system true (0 ∷ []) "10.0.0.7" bob_id 30 false none).0.hub.world.peers
        ≡ some bob)
open_session_admits_example =
    open_session_admits lib system (0 ∷ []) "10.0.0.7" bob_id 30 false none bob hello_opens

no_hello :
    (open_session lib system true (1 ∷ []) "10.0.0.7" bob_id 30 false none).1
    ≡ Opening.rejected ErrorCode.protocol_error
unfolding open_session allow decode read_hello
no_hello = refl

open_session_rejected_example :
    ((open_session lib system true (1 ∷ []) "10.0.0.7" bob_id 30 false none).0.hub.world
      ≡ hub.world)
    × ((open_session lib system true (1 ∷ []) "10.0.0.7" bob_id 30 false none).0.udp ≡ system.udp)
open_session_rejected_example =
    open_session_rejected lib system (1 ∷ []) "10.0.0.7" bob_id 30 false none
      ErrorCode.protocol_error no_hello

abbrev notice : Outgoing
notice = record { binary = false; payload = 7 ∷ [] }

abbrev queue : Conn
queue = record { write_ch = []; done = false }

abbrev later_frames : List Outgoing
later_frames = replicate 1022 (sound (1 ∷ []))

write_audio_displaces_example :
    write_audio
      (1 + 2)
      (record queue { write_ch = (notice ∷ []) ++ (sound (2 ∷ []) ∷ later_frames) })
      (3 ∷ [])
    ≡ some (
      record queue { write_ch = later_frames ++ ((notice ∷ []) ++ (sound (3 ∷ []) ∷ [])) },
      Written.queued,
    )
write_audio_displaces_example =
    write_audio_displaces queue (3 ∷ []) refl (notice ∷ []) later_frames (sound (2 ∷ [])) refl refl
      refl

write_audio_spins_example :
    write_audio 5000 (record queue { write_ch = replicate 1024 notice }) (3 ∷ []) ≡ none
write_audio_spins_example =
    write_audio_spins queue (3 ∷ []) refl 5000 (replicate 1024 notice) refl refl

abbrev speaking : List ℕ
speaking = 161 ∷ 0 ∷ 0 ∷ 0 ∷ (alice_id ++ 2 ∷ 1 ∷ 1 ∷ 0 ∷ 5 ∷ [])

handle_audio-Queues_example :
    (((handle_audio lib hub alice speaking 20).1 ≢ AudioVerdict.forwarded)
      × ((handle_audio lib hub alice speaking 20).0.world ≡ hub.world))
    ⊎ ((r : Room) × (hdr : AudioFrameHeader) × (audio : List ℕ) × Queues lib hub alice speaking 20 r
          hdr audio
        × ((handle_audio lib hub alice speaking 20).1 ≡ AudioVerdict.forwarded)
        × ((handle_audio lib hub alice speaking 20).0.world
            ≡ put_room hub.world (queued lib hub alice speaking 20 r)))
handle_audio-Queues_example = handle_audio-Queues lib hub alice speaking 20

close_session_silent_example :
    IsBound (close_session system alice).udp
    × ((key : UdpAddr) (b : Binding)
        → lookup key (close_session system alice).udp.peer_by_addr ≡ some b
        → b.peer ≢ alice_id)
close_session_silent_example = close_session_silent system alice (new_server-IsBound 10 100)
