-- ===== src/Bridge/Tests.antt =====
-- The bridge with one plugin and one server.
use mathlib.Core.List.{Memᴰ}
use network_ultra_server.Prelude.{
  All, ℕ, ◌≡◌, ◌++◌, ◌⊎◌, refl, String, Bool, true, false, List, [], ◌∷◌, none, some, bytes_eq,
  string_eq, replicate, if◌then◌else◌, ◌==◌, length,
}
use network_ultra_server.Prelude.Maps.{Map, lookup, has, insert}
use network_ultra_server.Proto.Audio
use network_ultra_server.Proto.Audio.{AudioFrameHeader}
use network_ultra_server.Room.State.{Uuid, Peer}
use network_ultra_server.Room.Ops.{new_peer}
use network_ultra_server.Udp.State.{UdpAddr, addr_eq, Server, new_server}
use network_ultra_server.Net.{short_ip, is_loopback}
use network_ultra_server.Bridge.Launch.{wait_until_free}
use network_ultra_server.Bridge.Proxy.{new_udp_proxy}
use network_ultra_server.Bridge.Sources.{Datagram, relay_all, start, Owned, proxy_owner}
use network_ultra_server.Bridge.Welcome.{
  Value, Member, Document, Libraries, Rewriter, Relay, rewrite, rewrite_data, session_of, text_of,
  valid_token, advertise, open_udp_proxy, open_sockets,
}
use network_ultra_server.Bridge.Rewriting.{IsSettled}
use network_ultra_server.Bridge.Relaying.{
  rewrite-IsSettled, relay_messages, payloads, IsWelcome, relay_messages_once,
}

abbrev uuid_string : Uuid → String
uuid_string id = "peer"

abbrev alice_id : Uuid
alice_id = replicate 16 1

abbrev token : List ℕ
token = replicate 32 5

abbrev studio : Uuid
studio = replicate 16 9

abbrev server_addr : UdpAddr
server_addr = record { ip = 10 ∷ 0 ∷ 0 ∷ 1 ∷ []; port = 18900; zone = "" }

abbrev plugin : UdpAddr
plugin = record { ip = 127 ∷ 0 ∷ 0 ∷ 1 ∷ []; port = 5000; zone = "" }

abbrev stranger : UdpAddr
stranger = record { ip = 127 ∷ 0 ∷ 0 ∷ 1 ∷ []; port = 5001; zone = "" }

abbrev outer : UdpAddr
outer = record { ip = 10 ∷ 0 ∷ 0 ∷ 7 ∷ []; port = 4000; zone = "" }

abbrev audio_packet : List ℕ
audio_packet = 161 ∷ 0 ∷ 0 ∷ 0 ∷ (alice_id ++ 2 ∷ 1 ∷ 3 ∷ 0 ∷ 1 ∷ 2 ∷ 3 ∷ [])

abbrev header : AudioFrameHeader
header = record { source_peer_id = alice_id; seq = 258; len = 3 }

abbrev in_room : Peer
in_room = record (new_peer alice_id 10 "alice" "host") { cur_room = some studio }

-- The server, once the session is open.
abbrev s0 : Server
s0 = record (new_server 10 100) {
  peer_by_id = (alice_id, tt) ∷ [];
  token_by_id = (alice_id, token) ∷ [];
  senders = (alice_id, tt) ∷ [];
}

abbrev arrived : List Datagram
arrived =
    Datagram.local audio_packet plugin
    ∷ Datagram.local (192 ∷ 0 ∷ 0 ∷ 0 ∷ (alice_id ++ token)) plugin
    ∷ Datagram.local audio_packet stranger
    ∷ Datagram.remote (193 ∷ 0 ∷ 0 ∷ 0 ∷ alice_id) server_addr
    ∷ Datagram.remote audio_packet stranger
    ∷ []

proxy_owner_example :
    Owned server_addr alice_id token
      (λ d. Memᴰ d arrived)
      (relay_all (start (new_udp_proxy server_addr alice_id token)) arrived)
proxy_owner_example = proxy_owner server_addr alice_id token arrived

abbrev welcome_members : Map String Value
welcome_members =
    ("udpEndpoint", Value.text "10.0.0.1:18900")
    ∷ ("udpToken", Value.text "token")
    ∷ ("peerId", Value.text "alice")
    ∷ ("serverName", Value.text "studio")
    ∷ []

abbrev welcome_document : Document
welcome_document = ("type", Member.string "welcome") ∷ ("data", Member.object welcome_members) ∷ []

-- One message is a welcome, everything else is no JSON.
abbrev libraries : Libraries
libraries = record {
  unmarshal = λ bytes. if bytes == (1 ∷ []) then some welcome_document else none;
  marshal = λ doc. some (2 ∷ length doc ∷ []);
  decode_string = λ t. if t == "token" then some token else none;
  encode_to_string = λ bytes. "token";
  parse_uuid = λ t. some alice_id;
  resolve_udp_addr = λ t. if t == "127.0.0.1:0" then some plugin else some server_addr;
  listen_udp = λ v4 a. some a;
  addr_text = λ a. "127.0.0.1:5000";
}

abbrev rewriter : Rewriter
rewriter = record { listen_addr = "127.0.0.1:0"; opened = none }

welcome_type : lookup "type" welcome_document ≡ some (Member.string "welcome")
unfolding lookup
welcome_type = refl

welcome_data : lookup "data" welcome_document ≡ some (Member.object welcome_members)
unfolding lookup
welcome_data = refl

rewrite-IsSettled_example :
    IsSettled libraries welcome_document welcome_members rewriter
      (1 ∷ [])
      (rewrite libraries rewriter (1 ∷ []))
rewrite-IsSettled_example =
    rewrite-IsSettled libraries rewriter (1 ∷ []) welcome_document welcome_members refl welcome_type
      welcome_data

advertised :
    (rewrite libraries rewriter (1 ∷ [])).1
    ≡ record { payload = 2 ∷ 2 ∷ []; handled = true; changed = true }
unfolding rewrite rewrite_data has lookup session_of text_of valid_token advertise open_udp_proxy
    open_sockets is_loopback short_ip insert
advertised = refl

abbrev relay : Relay
relay = record { rewriter = rewriter; sniffed = false }

abbrev messages : List (Bool × List ℕ)
messages = (true, 7 ∷ []) ∷ (false, 1 ∷ []) ∷ (true, 1 ∷ []) ∷ (true, 1 ∷ []) ∷ []

relay_messages_once_example :
    ((relay_messages libraries relay messages ≡ (relay, payloads messages))
      × ((relay.sniffed ≡ true) ⊎ All (λ m. ¬ IsWelcome libraries m) messages))
    ⊎ ((before after : List (Bool × List ℕ)) × (payload : List ℕ) × (messages
          ≡ before ++ (true, payload) ∷ after)
        × (relay.sniffed ≡ false)
        × All (λ m. ¬ IsWelcome libraries m) before
        × IsWelcome libraries (true, payload)
        × (relay_messages libraries relay messages ≡ (
          record { rewriter = (rewrite libraries rewriter payload).0; sniffed = true },
          payloads before ++ (rewrite libraries rewriter payload).1.payload ∷ payloads after,
        )))
relay_messages_once_example = relay_messages_once libraries relay messages

-- A port that is never free is probed twenty times before the last.
never_free : wait_until_free 20 (λ probe. false) 1 ≡ 21
unfolding wait_until_free
never_free = refl
