-- ===== src/Udp/Tests.antt =====
-- internal/udp on a server with one peer: it says hello, is bound, and speaks.
use network_ultra_server.Prelude.{
  leb, ◌-◌, ℕ, ◌≡◌, ◌++◌, refl, String, false, List, [], ◌∷◌, none, some, bytes_eq, string_eq,
  replicate, ◌⊎◌,
}
use network_ultra_server.Prelude.Maps.{lookup, keep_unless}
use network_ultra_server.Proto.Audio.{unpack, AudioFrameHeader}
use network_ultra_server.Proto.Audio
use network_ultra_server.Proto.Udp.{UdpHelloFrame, unpack_udp_hello, pack_udp_welcome}
use network_ultra_server.Proto.Udp
use network_ultra_server.Proto.Buffer.{get_u16}
use network_ultra_server.RateLimit.Limiter.{
  allow, normalize_key, current_entry, admit_new, ensure_capacity, after_consume,
}
use network_ultra_server.Room.State.{Uuid, Peer}
use network_ultra_server.Room.Ops.{new_peer}
use network_ultra_server.Udp.State.{
  UdpAddr, addr_eq, addr_string, short_ip, Binding, Server, new_server,
}
use network_ultra_server.Udp.Handlers.{
  Verdict, mint_token, attach_peer, handle_hello, handle_audio, forward_audio, dispatch,
}
use network_ultra_server.Udp.Sweep.{expire_idle}
use network_ultra_server.Udp.Binding.{IsBound}
use network_ultra_server.Udp.Binding.Hello.{
  SameMaps, replies, Admits, bind, counted, handle_hello_cases,
}
use network_ultra_server.Udp.Binding.Runs.{Step, Reach, Reach-IsBound, new_server-IsBound}
use network_ultra_server.Udp.Security.{Kept, handle_audio_forwards, dispatch_keeps_address}
use network_ultra_server.Udp.Expiry.{expire_idle_exact}

abbrev uuid_string : Uuid → String
uuid_string id = "peer"

abbrev alice_id : Uuid
alice_id = replicate 16 1

abbrev token : List ℕ
token = replicate 32 5

abbrev home : UdpAddr
home = record { ip = 10 ∷ 0 ∷ 0 ∷ 7 ∷ []; port = 4000; zone = "" }

abbrev elsewhere : UdpAddr
elsewhere = record { ip = 10 ∷ 0 ∷ 0 ∷ 8 ∷ []; port = 4000; zone = "" }

abbrev hello_packet : List ℕ
hello_packet = 192 ∷ 0 ∷ 0 ∷ 0 ∷ (alice_id ++ token)

abbrev audio_packet : List ℕ
audio_packet = 161 ∷ 0 ∷ 0 ∷ 0 ∷ (alice_id ++ 2 ∷ 1 ∷ 3 ∷ 0 ∷ 1 ∷ 2 ∷ 3 ∷ [])

abbrev in_room : Peer
in_room = record (new_peer alice_id 10 "alice" "host") { cur_room = some (replicate 16 9) }

abbrev s0 : Server
s0 = new_server 10 100

abbrev bound : Binding
bound = record { peer = alice_id; addr = home; token = token; last_seen = 50 }

-- The server once the hello is answered, with limiters that have counted nothing yet.
abbrev s1 : Server
s1 = record s0 {
  peer_by_addr = (home, bound) ∷ [];
  peer_by_id = (alice_id, tt) ∷ [];
  token_by_id = (alice_id, token) ∷ [];
  udp_addr = (alice_id, home) ∷ [];
  senders = (alice_id, tt) ∷ [];
}

Reach-IsBound_example : IsBound (
    expire_idle
      (dispatch uuid_string
        (dispatch uuid_string
          (mint_token (attach_peer s0 alice_id) alice_id (some token)).0
          []
          hello_packet
          home
          50).0
        ((alice_id, in_room) ∷ [])
        audio_packet
        home
        60).0
      70)
Reach-IsBound_example = Reach-IsBound uuid_string (new_server-IsBound 10 100) (
    Reach.next
      (Reach.next
        (Reach.next
          (Reach.next (Reach.next Reach.here (Step.attaches alice_id))
            (Step.mints alice_id (some token)))
          (Step.receives [] hello_packet home 50))
        (Step.receives ((alice_id, in_room) ∷ []) audio_packet home 60))
      (Step.sweeps 70))

handle_hello_cases_example :
    ((replies (handle_hello uuid_string s1 hello_packet elsewhere 60).1 ≡ false)
      × SameMaps s1 (handle_hello uuid_string s1 hello_packet elsewhere 60).0)
    ⊎ ((hello : UdpHelloFrame) × (unpack_udp_hello hello_packet ≡ Udp.ok hello)
        × Admits uuid_string s1 elsewhere 60 hello
        × (handle_hello uuid_string s1 hello_packet elsewhere 60 ≡ (
          bind
              (counted uuid_string s1 elsewhere 60 hello.peer_id)
              hello.peer_id
              hello.token
              elsewhere
              60,
          Verdict.replied (pack_udp_welcome hello.peer_id []),
        )))
handle_hello_cases_example = handle_hello_cases uuid_string s1 elsewhere 60 hello_packet

spoken :
    (handle_audio uuid_string s1 ((alice_id, in_room) ∷ []) audio_packet home 60).1
    ≡ Verdict.forwarded
        (replicate 16 9)
        (record { source_peer_id = alice_id; payload = audio_packet; done = none })
unfolding handle_audio lookup addr_string short_ip unpack get_u16 forward_audio allow normalize_key
    current_entry admit_new ensure_capacity after_consume
spoken = refl

handle_audio_forwards_example :
    (b : Binding) × (p : Peer) × (hdr : AudioFrameHeader) × (payload : List ℕ) × (lookup
        (addr_string home)
        s1.peer_by_addr
      ≡ some b)
    × (unpack audio_packet ≡ Audio.ok (hdr, payload))
    × (hdr.source_peer_id ≡ b.peer)
    × (lookup b.peer ((alice_id, in_room) ∷ []) ≡ some p)
    × (p.muted ≡ false)
    × (p.cur_room ≡ some (replicate 16 9))
    × (audio_packet ≡ audio_packet)
    × (alice_id ≡ p.id)
handle_audio_forwards_example =
    handle_audio_forwards uuid_string s1 ((alice_id, in_room) ∷ []) audio_packet home 60 spoken

alice_at_home : lookup alice_id s1.udp_addr ≡ some home
unfolding lookup
alice_at_home = refl

dispatch_keeps_address_example :
    Kept alice_id home (dispatch uuid_string s1 [] hello_packet elsewhere 60).0
dispatch_keeps_address_example =
    dispatch_keeps_address uuid_string s1 [] hello_packet elsewhere 60 alice_id home alice_at_home

expire_idle_exact_example :
    lookup home (expire_idle s1 20_000_000_000).peer_by_addr
    ≡ keep_unless
        (λ b. leb 15_000_000_000 (20_000_000_000 - b.last_seen))
        (lookup home s1.peer_by_addr)
expire_idle_exact_example = expire_idle_exact 20_000_000_000 s1 home
