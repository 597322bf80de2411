-- ===== src/Relay/Tests.antt =====
-- A session on a new server: it opens, its peer sends a control message, and a datagram comes.
use network_ultra_server.Prelude.{◌≡◌, refl, true, false, [], ◌∷◌, none, some, replicate, bytes_eq}
use network_ultra_server.Prelude.Maps.{lookup, insert}
use network_ultra_server.RateLimit.Limiter
use network_ultra_server.RateLimit.Limiter.{allow}
use network_ultra_server.Room.State.{Uuid, Peer, new_registry}
use network_ultra_server.Room.Ops.{new_peer}
use network_ultra_server.Room.Invariant.Runs.{new_registry-Coherent}
use network_ultra_server.Udp.State.{UdpAddr, new_server}
use network_ultra_server.Udp.Handlers.{mint_token}
use network_ultra_server.Udp.Binding.Runs.{new_server-IsBound}
use network_ultra_server.Ws.Labels.{valid_human_label, runes, trim_space, has_control, bytes_of}
use network_ultra_server.Ws.State.{Libraries, decode}
use network_ultra_server.Ws.Control.{handle_control}
use network_ultra_server.Ws.Session.{
  System, open_session, read_hello, refuse_hello, check_server_password, admit,
}
use network_ultra_server.Relay.{receive}
use network_ultra_server.Relay.Sound.{IsSound}
use network_ultra_server.Relay.Runs.{Step, Reach, Reach-IsSound}

abbrev bob_id : Uuid
bob_id = replicate 16 2

abbrev room_id : Uuid
room_id = replicate 16 9

abbrev lib : Libraries
lib = record {
  unmarshal_envelope =
      λ bytes. some (record { type_name = "hello"; v = 1; id = "a"; data_bytes = bytes });
  unmarshal_hello = λ bytes. some (record { username = "bob"; server_password = "" });
  unmarshal_room_create = λ bytes. none;
  unmarshal_room_join = λ bytes. none;
  unmarshal_peer_mute = λ bytes. some true;
  unmarshal_subscribe = λ bytes. some [];
  unmarshal_ping = λ bytes. 0;
  compare_hash = λ hash password. false;
  generate_hash = λ password. none;
  uuid_string = λ id. "peer";
  uuid_parse = λ text. none;
  utf8_valid = λ bytes. true;
  to_lower = λ s. s;
}

abbrev s0 : System
s0 = record {
  hub = record {
    world = new_registry 4 8;
    rate_limits = record {
      hello_per_ip_per_minute = 0;
      room_create_per_peer_per_minute = 6;
      room_join_per_peer_per_minute = 6;
      room_list_per_peer_per_minute = 6;
      control_per_peer_per_minute = 60;
      audio_frames_per_peer_per_sec = 200;
      password_checks_concurrent = 4;
    };
    server_password_hash = [];
    hello_limiter = Limiter.new;
    peer_limiter = Limiter.new;
    passwords_running = 0;
    outbox = [];
  };
  has_udp = true;
  udp = new_server 10 100;
}

s0-IsSound : IsSound s0
s0-IsSound = record { coherent = new_registry-Coherent 4 8; bound = new_server-IsBound 10 100 }

abbrev home : UdpAddr
home = record { ip = 10 ∷ 0 ∷ 0 ∷ 7 ∷ []; port = 4000; zone = "" }

abbrev s1 : System
s1 = (open_session lib s0 true (1 ∷ []) "10.0.0.7" bob_id 30 true (some (replicate 32 5))).0

abbrev bob : Peer
bob = record (new_peer bob_id 30 "bob" "") { remote_ip = "10.0.0.7"; send = true; udp_send = true }

nobody : lookup bob_id s0.hub.world.peers ≡ none
unfolding lookup
nobody = refl

bob_stored : lookup bob_id s1.hub.world.peers ≡ some bob
unfolding lookup insert open_session allow decode read_hello refuse_hello valid_human_label runes
    trim_space has_control bytes_of check_server_password admit mint_token
bob_stored = refl

no_room : lookup room_id s1.hub.world.rooms ≡ none
unfolding lookup insert open_session allow decode read_hello refuse_hello valid_human_label runes
    trim_space has_control bytes_of check_server_password admit mint_token
no_room = refl

Reach-IsSound_example : IsSound (
    receive lib.uuid_string
      (record s1 { hub = handle_control lib s1.hub bob (2 ∷ []) room_id 40 })
      (192 ∷ 0 ∷ [])
      home
      50)
Reach-IsSound_example = Reach-IsSound lib s0-IsSound (
    Reach.next
      (Reach.next
        (Reach.next Reach.here
          (Step.opens true (1 ∷ []) "10.0.0.7" bob_id 30 true (some (replicate 32 5)) nobody))
        (Step.controls bob (2 ∷ []) room_id 40 bob_stored no_room))
      (Step.receives (192 ∷ 0 ∷ []) home 50))
