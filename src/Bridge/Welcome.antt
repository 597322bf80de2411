-- ===== src/Bridge/Welcome.antt =====
-- What the bridge does to the messages of one connection: newUDPProxy, the welcome's rewriting and
-- the relay from the server to the plugin.
use network_ultra_server.Prelude.{
  ℕ, String, Bool, true, false, ◌&&◌, ◌||◌, not, List, [], ◌∷◌, Option, none, some, ◌==◌, ltb,
  nat_eqb, if◌then◌else◌, length, replicate, bytes_eq, string_eq,
}
use network_ultra_server.Prelude.Maps.{Map, lookup, insert, delete, has}
use network_ultra_server.Proto.Udp.{udp_token_size}
use network_ultra_server.Room.State.{Uuid}
use network_ultra_server.Net.{short_ip, is_loopback}
use network_ultra_server.Udp.State.{UdpAddr}
use network_ultra_server.Bridge.Proxy.{UdpProxy, new_udp_proxy}

-- A member of the message's `data` object: a string, or a value of which only the encoder knows.
pub data Value : Type 0 where
  text : String → Value
  other_value : ℕ → Value

-- A member of the message itself.
pub data Member : Type 0 where
  string : String → Member
  object : Map String Value → Member
  other_member : ℕ → Member

abbrev pub Document : Type 0
Document = Map String Member

-- The networks that net.ListenUDP is called with.
pub data Network : Type 0 where
  any_udp udp4 udp6 : Network

-- What the bridge calls of other packages: encoding/json, encoding/base64, the UUID's text form,
-- and net. `listen_udp` gives the socket's own address, or none if it cannot be opened.
pub record Libraries : Type 0 where
  pub unmarshal : List ℕ → Option Document
  pub marshal : Document → Option (List ℕ)
  pub decode_string : String → Option (List ℕ)
  pub encode_to_string : List ℕ → String
  pub parse_uuid : String → Option Uuid
  pub resolve_udp_addr : String → Option UdpAddr
  pub listen_udp : Network → UdpAddr → Option UdpAddr
  pub addr_text : UdpAddr → String

abbrev unspecified : UdpAddr → Bool → UdpAddr
unspecified ua v4 = record {
  ip = if v4 then 0 ∷ 0 ∷ 0 ∷ 0 ∷ [] else replicate 16 0;
  port = 0;
  zone = "";
}

-- A proxy, with the address of its loopback socket.
pub record Opened : Type 0 where
  pub proxy : UdpProxy
  pub local_addr : UdpAddr

-- welcomeUDPRewriter
pub record Rewriter : Type 0 where
  pub listen_addr : String
  pub opened : Option Opened

-- The state of relayWithRewrite: its rewriter and sniffOnce.
pub record Relay : Type 0 where
  pub rewriter : Rewriter
  pub sniffed : Bool

-- What rewrite returns.
pub record Rewritten : Type 0 where
  pub payload : List ℕ
  pub handled : Bool
  pub changed : Bool

-- `v, ok := m[key].(string)`
unfoldable pub text_of : Option Value → String × Bool
text_of (some (text s)) = (s, true)
text_of (some (other_value _)) = ("", false)
text_of none = ("", false)

module _ (lib : Libraries) where
  unfoldable pub open_sockets : UdpAddr → UdpAddr → Uuid → List ℕ → Option Opened
  open_sockets la ua peer token = elim (lib.listen_udp Network.any_udp la) [
    | none ↦ none
    | some at ↦
        let v4 = nat_eqb (length (short_ip ua.ip)) 4 in
        elim (lib.listen_udp (if v4 then Network.udp4 else Network.udp6) (unspecified ua v4)) [
          | none ↦ none
          | some _ ↦ some (record { proxy = new_udp_proxy ua peer token; local_addr = at })
        ]
  ]

  -- newUDPProxy: a nil IP is the empty list.
  unfoldable pub open_udp_proxy : String → String → Uuid → List ℕ → Option Opened
  open_udp_proxy listen_addr upstream_addr peer token = elim (lib.resolve_udp_addr listen_addr) [
    | none ↦ none
    | some la ↦ elim (lib.resolve_udp_addr upstream_addr) [
      | none ↦ none
      | some ua ↦
          if not (is_loopback la.ip)
          then none
          else if nat_eqb (length ua.ip) 0 || ltb ua.port 1
          then none
          else open_sockets la ua peer token
    ]
  ]

  unfoldable pub strip_welcome_udp : Document → Map String Value → List ℕ → List ℕ
  strip_welcome_udp env members original =
      elim (lib.marshal
        (insert "data" (object (delete "udpToken" (delete "udpEndpoint" members))) env)) [
          | none ↦ original
          | some out ↦ out
        ]

  -- `validToken`, with the token's bytes.
  unfoldable pub valid_token : String → Bool → Option (List ℕ)
  valid_token token_text token_ok = elim (lib.decode_string token_text) [
    | none ↦ none
    | some raw ↦
        if token_ok
          && (nat_eqb (length raw) udp_token_size && lib.encode_to_string raw == token_text)
        then some raw
        else none
  ]

  -- The endpoint, the peer and the token that a welcome advertises, if they are complete.
  unfoldable pub session_of : Map String Value → Option (String × Uuid × List ℕ)
  session_of members =
      let (ep, ep_ok) = text_of (lookup "udpEndpoint" members) in
      let (token_text, token_ok) = text_of (lookup "udpToken" members) in
      let (peer_text, peer_ok) = text_of (lookup "peerId" members) in
      if not ep_ok || ep == "" then none else (elim (valid_token token_text token_ok) [
        | none ↦ none
        | some token ↦ if not peer_ok then none else (elim (lib.parse_uuid peer_text) [
          | none ↦ none
          | some peer ↦ some (ep, peer, token)
        ])
      ])

  -- rewrite from newUDPProxy on.
  unfoldable pub advertise :
      Rewriter
      → Document
      → Map String Value
      → List ℕ
      → String × Uuid × List ℕ
      → Rewriter × Rewritten
  advertise r env members original (ep, peer, token) =
      let stripped : Rewritten = record {
        payload = strip_welcome_udp env members original;
        handled = true;
        changed = true;
      } in
      elim (open_udp_proxy r.listen_addr ep peer token) [
        | none ↦ (r, stripped)
        | some o ↦
            elim (lib.marshal (
              insert "data"
                (object (insert "udpEndpoint" (text (lib.addr_text o.local_addr)) members)) env)) [
                  | none ↦ (r, stripped)
                  | some out ↦ (
                    record r { opened = some o },
                    record { payload = out; handled = true; changed = true },
                  )
                ]
      ]

  unfoldable pub rewrite_data :
      Rewriter → Document → Map String Value → List ℕ → Rewriter × Rewritten
  rewrite_data r env members original =
      if not (has "udpEndpoint" members) && not (has "udpToken" members)
      then (r, record { payload = original; handled = true; changed = false })
      else (elim (session_of members) [
        | none ↦ (
          r,
          record {
            payload = strip_welcome_udp env members original;
            handled = true;
            changed = true;
          },
        )
        | some session ↦ advertise r env members original session
      ])

  abbrev pub as_object : Option Member → Option (Map String Value)
  as_object (some (object members)) = some members
  as_object _ = none

  abbrev pub is_welcome_type : Option Member → Bool
  is_welcome_type (some (string t)) = t == "welcome"
  is_welcome_type _ = false

  unfoldable pub rewrite : Rewriter → List ℕ → Rewriter × Rewritten
  rewrite r payload =
      let same : Rewritten = record { payload = payload; handled = false; changed = false } in
      elim (lib.unmarshal payload) [
        | none ↦ (r, same)
        | some env ↦
            if not (is_welcome_type (lookup "type" env))
            then (r, same)
            else (elim (as_object (lookup "data" env)) [
              | none ↦ (r, record same { handled = true })
              | some members ↦ rewrite_data r env members payload
            ])
      ]

  -- One message of relayWithRewrite; what is returned is what it writes.
  unfoldable pub relay_with_rewrite : Relay → Bool → List ℕ → Relay × List ℕ
  relay_with_rewrite s is_text payload =
      if is_text && not s.sniffed
      then (let (rewriter, result) = rewrite s.rewriter payload in
          if result.handled
          then (record { rewriter = rewriter; sniffed = true }, result.payload)
          else (s, payload))
      else (s, payload)
