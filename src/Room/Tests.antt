-- ===== src/Room/Tests.antt =====
-- internal/room on a registry of one room: two peers connect, one creates the room and joins it,
-- then the other joins.
use network_ultra_server.Prelude.{
  ◌⊎◌, ℕ, ◌<◌, ◌≡◌, refl, String, Bool, false, List, [], ◌∷◌, ◌==◌, ==_iff, none, some, arith,
  string_eq, bytes_eq, replicate, length,
}
use network_ultra_server.Prelude.Maps.{Map, lookup, insert, has, Distinct}
use network_ultra_server.Room.State.{
  Uuid, RoomError, err, Peer, Frame, Room, World, new_registry, put_peer,
}
use network_ultra_server.Room.Ops.{new_peer, add, enter, schedule_destroy_if_empty}
use network_ultra_server.Room.Registry.{create, destroy, new_room, entry_of, notify}
use network_ultra_server.Room.Audio.{fan_out, drain}
use network_ultra_server.Room.Audio.FanOut.{deliveries_to, Hears, fan_out_exact}
use network_ultra_server.Room.Audio.Queue.{Event, Forwarder, Accounts, run, run-Accounts, count}
use network_ultra_server.Room.Invariant.{RoomOk, Coherent}
use network_ultra_server.Room.Invariant.Rooms.{left}
use network_ultra_server.Room.Invariant.Destroy.{dead}
use network_ultra_server.Room.Invariant.Runs.{Step, Reach, Reach-Coherent, new_registry-Coherent}
use network_ultra_server.Room.Lifetime.{stale_timer, armed_timer}

abbrev to_lower : String → String
to_lower s = s

abbrev alice_id : Uuid
alice_id = replicate 16 1

abbrev bob_id : Uuid
bob_id = replicate 16 2

abbrev room_id : Uuid
room_id = replicate 16 9

abbrev alice : Peer
alice = new_peer alice_id 10 "alice" "host"

abbrev bob : Peer
bob = new_peer bob_id 11 "bob" "member"

-- The room as Create leaves it: empty, with its first timer.
abbrev empty_room : Room
empty_room = record {
  id = room_id;
  name = "jam";
  name_lower = "jam";
  visibility = "public";
  has_password = false;
  password_hash = none;
  max_peers = 8;
  created_at = 12;
  peers = [];
  audio_ch = [];
  destroy_timer = some 1;
  destroy_generation = 1;
  destroyed = false;
}

abbrev w0 : World
w0 = put_peer (put_peer (new_registry 4 8) alice) bob

abbrev w1 : World
w1 = (create to_lower w0 room_id 12 "jam" "public" none).0

abbrev joined_room : Room
joined_room = enter empty_room alice_id

abbrev w2 : World
w2 = (add w1 empty_room alice).0

abbrev w3 : World
w3 = (add w2 joined_room bob).0

created_room : lookup room_id w1.rooms ≡ some empty_room
unfolding create lookup has insert schedule_destroy_if_empty new_room notify entry_of
created_room = refl

created_bob : lookup bob_id w1.peers ≡ some bob
unfolding create lookup has insert schedule_destroy_if_empty new_room notify entry_of
created_bob = refl

created_alice : lookup alice_id w1.peers ≡ some alice
unfolding create lookup has insert schedule_destroy_if_empty new_room notify entry_of
created_alice = refl

room_after_join : lookup room_id w2.rooms ≡ some joined_room
unfolding create lookup has insert schedule_destroy_if_empty new_room notify entry_of add enter
room_after_join = refl

bob_after_join : lookup bob_id w2.peers ≡ some bob
unfolding create lookup has insert schedule_destroy_if_empty new_room notify entry_of add enter
bob_after_join = refl

new_ids :
    (lookup alice_id (new_registry 4 8).peers ≡ none)
    × (lookup bob_id (put_peer (new_registry 4 8) alice).peers ≡ none)
    × (lookup room_id w0.rooms ≡ none)
unfolding lookup insert
new_ids = (refl, refl, refl)

w1-Reach : Reach to_lower (new_registry 4 8) w1
w1-Reach =
    Reach.next
      (Reach.next (Reach.next Reach.here (Step.connects alice_id 10 "alice" "host" new_ids.0))
        (Step.connects bob_id 11 "bob" "member" new_ids.1))
      (Step.creates room_id 12 "jam" "public" none new_ids.2)

w3-Reach : Reach to_lower (new_registry 4 8) w3
unfolding enter
w3-Reach =
    Reach.next (Reach.next w1-Reach (Step.adds empty_room alice created_room created_alice refl))
      (Step.adds joined_room bob room_after_join bob_after_join refl)

w1-Coherent : Coherent w1
w1-Coherent = Reach-Coherent to_lower (new_registry-Coherent 4 8) w1-Reach

Reach-Coherent_example : Coherent w3
Reach-Coherent_example = Reach-Coherent to_lower (new_registry-Coherent 4 8) w3-Reach

w0-Coherent : Coherent w0
w0-Coherent = Reach-Coherent to_lower (new_registry-Coherent 4 8) (
    Reach.next (Reach.next Reach.here (Step.connects alice_id 10 "alice" "host" new_ids.0))
      (Step.connects bob_id 11 "bob" "member" new_ids.1))

occupied : 0 < length joined_room.peers
unfolding enter insert
occupied = omega arith

empty_room-RoomOk : RoomOk empty_room
empty_room-RoomOk = (w1-Coherent.stored room_id empty_room created_room).1

stale_timer_example : destroy w1 (left (enter empty_room alice_id) alice_id) 1 ≡ w1
stale_timer_example = stale_timer w1 empty_room alice_id empty_room-RoomOk refl (omega arith)

armed_timer_example :
    (lookup "jam" (destroy w1 empty_room 1).table ≡ none)
    × (lookup room_id (destroy w1 empty_room 1).rooms ≡ some (dead w1 empty_room))
    × ((p : Peer)
        → add (destroy w1 empty_room 1) (dead w1 empty_room) p
          ≡ (destroy w1 empty_room 1, err RoomError.room_not_found))
armed_timer_example = armed_timer w1 empty_room w1-Coherent created_room refl refl

abbrev udp : Uuid → List ℕ → Bool
udp id payload = id == bob_id

abbrev store : Map Uuid Peer
store = (alice_id, alice) ∷ (bob_id, bob) ∷ []

abbrev both : Room
both = record empty_room { peers = (alice_id, tt) ∷ (bob_id, tt) ∷ []; destroy_timer = none }

abbrev voice : Frame
voice = record { source_peer_id = alice_id; payload = 1 ∷ 2 ∷ []; done = some 77 }

store_named : (pid : Uuid) (p : Peer) → lookup pid store ≡ some p → p.id ≡ pid
unfolding lookup
store_named pid p h = ground (arith, ==_iff alice_id pid, ==_iff bob_id pid)

both-Distinct : Distinct both.peers
unfolding lookup
both-Distinct = (refl, (refl, tt))

fan_out_exact_example :
    ((deliveries_to bob_id (fan_out udp store both voice).0 ≡ 1) × Hears store both alice_id bob_id)
    ⊎ ((deliveries_to bob_id (fan_out udp store both voice).0 ≡ 0)
        × ¬ Hears store both alice_id bob_id)
fan_out_exact_example = fan_out_exact udp store store_named both voice bob_id both-Distinct

abbrev forwarder : Forwarder
forwarder = record { room = both; offered = []; called = [] }

forwarder-Accounts : Accounts forwarder
unfolding count drain
forwarder-Accounts = record { bounded = omega arith; once = λ t. omega arith }

run-Accounts_example : Accounts (
    run udp store forwarder
      (Event.offers voice ∷ Event.forwards ∷ Event.offers voice ∷ Event.closes ∷ []))
run-Accounts_example =
    run-Accounts udp store forwarder
      (Event.offers voice ∷ Event.forwards ∷ Event.offers voice ∷ Event.closes ∷ [])
      forwarder-Accounts
