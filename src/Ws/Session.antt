-- ===== src/Ws/Session.antt =====
-- A session of internal/ws/dispatch.go, `run`: the hello that opens it, and what its end undoes.
use network_ultra_server.Prelude.{
  ℕ, String, Bool, true, false, not, ◌&&◌, List, [], Option, none, some, ◌==◌, ltb, nat_eqb,
  if◌then◌else◌, length, string_eq, bytes_eq,
}
use network_ultra_server.Prelude.Maps.{lookup}
use network_ultra_server.RateLimit.Limiter.{allow}
use network_ultra_server.Room.State.{Uuid, Peer, put_peer}
use network_ultra_server.Room.Ops.{new_peer, max_password_bytes}
use network_ultra_server.Udp.State.{Server}
use network_ultra_server.Udp.Handlers.{mint_token, attach_peer, detach_peer}
use network_ultra_server.Ws.Labels.{bytes_of, trim_space, valid_username}
use network_ultra_server.Ws.State.{
  Hub, ErrorCode, Message, Envelope, HelloData, Libraries, decode, send, do_password_work,
}
use network_ultra_server.Ws.Rooms.{minute, cleanup_peer}

abbrev pub protocol_version : ℕ
protocol_version = 1

-- The control plane with the UDP data plane that it advertises. `has_udp` is `s.Udp != nil`; a
-- server without a data plane has one here that nobody is attached to.
pub record System : Type 0 where
  pub hub : Hub
  pub has_udp : Bool
  pub udp : Server

-- How a session's opening ends: with the error that the client is sent, or with the peer.
pub data Opening : Type 0 where
  rejected : ErrorCode → Opening
  failed : Opening
  opened : Peer → Opening

module _ (lib : Libraries) where
  -- `len(s.ServerPasswordHash) > 0`: none if the password lets the client in.
  unfoldable pub check_server_password : Hub → String → Option ErrorCode
  check_server_password h password =
      if nat_eqb (length h.server_password_hash) 0
      then none
      else if password == ""
      then some ErrorCode.server_password_required
      else (elim (do_password_work h
          (lib.compare_hash (some h.server_password_hash) (bytes_of password))) [
            | none ↦ some ErrorCode.rate_limited
            | some false ↦ some ErrorCode.bad_server_password
            | some true ↦ none
          ])

  -- The peer that NewPeer, RemoteIP and AttachSender make.
  abbrev pub session_peer : Uuid → ℕ → String → String → Peer
  session_peer id now remote_ip username = record (new_peer id now (trim_space username) "") {
    remote_ip = remote_ip;
    send = true;
  }

  -- From the new peer to its welcome: `advertised` is whether there is an endpoint to advertise,
  -- and `token` what the random reader gives, none where it fails.
  unfoldable pub admit :
      System → String → String → String → Uuid → ℕ → Bool → Option (List ℕ) → System × Opening
  admit s remote_ip username request id now advertised token =
      let p = record (session_peer id now remote_ip username) { udp_send = s.has_udp } in
      let told = s.has_udp && advertised in
      let (udp, minted) = if told then mint_token s.udp id token else (s.udp, some []) in
      elim minted [
        | none ↦ (record s { udp = udp }, Opening.failed)
        | some t ↦ (
          record s {
            hub =
                send (record s.hub { world = put_peer s.hub.world p }) id
                  (Message.welcome request id (if told then some t else none));
            udp = if s.has_udp then attach_peer udp id else udp;
          },
          Opening.opened p,
        )
      ]

  -- The hello's checks, in their order.
  unfoldable pub refuse_hello : Hub → Envelope → HelloData → Option ErrorCode
  refuse_hello h env d =
      if not (valid_username d.username)
      then some ErrorCode.bad_username
      else if ltb max_password_bytes (length (bytes_of d.server_password))
      then some ErrorCode.protocol_error
      else check_server_password h d.server_password

  unfoldable pub read_hello :
      System → Envelope → String → Uuid → ℕ → Bool → Option (List ℕ) → System × Opening
  read_hello s env remote_ip id now advertised token =
      if not (env.type_name == "hello")
      then (s, Opening.rejected ErrorCode.protocol_error)
      else if ltb protocol_version env.v
      then (s, Opening.rejected ErrorCode.protocol_error)
      else (elim (lib.unmarshal_hello env.data_bytes) [
        | none ↦ (s, Opening.rejected ErrorCode.protocol_error)
        | some d ↦ elim (refuse_hello s.hub env d) [
          | some code ↦ (s, Opening.rejected code)
          | none ↦ admit s remote_ip d.username env.id id now advertised token
        ]
      ])

  -- The first frame of a connection: `text` is whether it is a text frame.
  unfoldable pub open_session :
      System → Bool → List ℕ → String → Uuid → ℕ → Bool → Option (List ℕ) → System × Opening
  open_session s text payload remote_ip id now advertised token =
      if not text
      then (s, Opening.rejected ErrorCode.protocol_error)
      else if not (lib.utf8_valid payload)
      then (s, Opening.rejected ErrorCode.protocol_error)
      else (let (limiter, allowed) =
            allow s.hub.hello_limiter now remote_ip s.hub.rate_limits.hello_per_ip_per_minute
              minute in
          let s' = record s { hub = record s.hub { hello_limiter = limiter } } in
          if not allowed
          then (s', Opening.rejected ErrorCode.rate_limited)
          else (elim (decode lib payload) [
            | none ↦ (s', Opening.rejected ErrorCode.protocol_error)
            | some env ↦ read_hello s' env remote_ip id now advertised token
          ]))

-- What `run` does once the connection fails: cleanupPeer, then the deferred DetachPeer and
-- DetachSender. Without a data plane nobody is attached, and detaching changes nothing.
unfoldable pub close_session : System → Peer → System
close_session s p =
    let h = cleanup_peer s.hub p "disconnect" in
    record s {
      hub = elim (lookup p.id h.world.peers) [
        | none ↦ h
        | some q ↦ record h {
          world = put_peer h.world (record q { send = false; udp_send = false });
        }
      ];
      udp = detach_peer s.udp p.id;
    }
