-- ===== src/Bridge/Rewriting.antt =====
-- What a plugin is told of the UDP data plane.
use network_ultra_server.Prelude.{
  ℕ, ◌≡◌, ◌≢◌, refl, sym, ◌∙◌, ap, ◌⊎◌, inl, inr, String, Bool, true, List, Option, none, some,
  arith, ◌==◌, ==_iff, if◌then◌else◌, length, Option-cases, bytes_eq, string_eq, nat_eqb_iff,
}
use network_ultra_server.Prelude.Maps.{
  Map, lookup, insert, delete, lookup-insert, lookup-insert_self, lookup-insert_ne, lookup-delete,
}
use network_ultra_server.Proto.Udp.{udp_token_size}
use network_ultra_server.Room.State.{Uuid}
use network_ultra_server.Bridge.Welcome.{
  Value, Member, Document, Libraries, Opened, Rewriter, Rewritten, text_of, open_udp_proxy,
  open_sockets, strip_welcome_udp, valid_token, session_of, advertise,
}

abbrev pub Silent : Map String Value → Type 0
Silent members = (lookup "udpEndpoint" members ≡ none) × (lookup "udpToken" members ≡ none)

-- The message's other members are kept.
abbrev pub KeepsEnvelope : Document → Document → Type 0
KeepsEnvelope env out = (key : String) → "data" ≢ key → lookup key out ≡ lookup key env

-- A message like the one that came, less its UDP metadata.
pub record Stripped (env : Document) (members : Map String Value) (out : Document) : Type 0 where
  pub rest : Map String Value
  pub inside : lookup "data" out ≡ some (Member.object rest)
  pub silent : Silent rest
  pub keeps :
      (key : String) → "udpEndpoint" ≢ key → "udpToken" ≢ key → lookup key rest ≡ lookup key members
  pub keeps_envelope : KeepsEnvelope env out

-- A message like the one that came, but for the endpoint, which is a proxy's own; the proxy expects
-- the peer and the token that the message names.
pub record Advertised (lib : Libraries) (env : Document) (members : Map String Value)
    (out : Document) (o : Opened) : Type 0 where
  pub rest : Map String Value
  pub token_text : String
  pub peer_text : String
  pub inside : lookup "data" out ≡ some (Member.object rest)
  pub endpoint : lookup "udpEndpoint" rest ≡ some (Value.text (lib.addr_text o.local_addr))
  pub token : lookup "udpToken" rest ≡ some (Value.text token_text)
  pub decoded : lib.decode_string token_text ≡ some o.proxy.expected_token
  pub size : length o.proxy.expected_token ≡ udp_token_size
  pub peer : lookup "peerId" rest ≡ some (Value.text peer_text)
  pub parsed : lib.parse_uuid peer_text ≡ some o.proxy.expected_peer
  pub keeps : (key : String) → "udpEndpoint" ≢ key → lookup key rest ≡ lookup key members
  pub keeps_envelope : KeepsEnvelope env out

module _ (lib : Libraries) where
  text_of_lem : (v : Option Value) → (text_of v).1 ≡ true → v ≡ some (Value.text (text_of v).0)
  unfolding text_of
  text_of_lem (some (Value.text t)) e = refl
  text_of_lem (some (Value.other_value _)) e = ground arith
  text_of_lem none e = ground arith

  valid_token_lem :
      (t : String) (ok : Bool) (raw : List ℕ)
      → valid_token lib t ok ≡ some raw
      → (ok ≡ true) × (lib.decode_string t ≡ some raw) × (length raw ≡ udp_token_size)
  unfolding valid_token
  valid_token_lem t ok raw e = elim (Option-cases (lib.decode_string t)) [
    | inl bad ↦ absurd (ground arith)
    | inr (r, good) ↦
        (ground arith, ground arith, ground (arith, nat_eqb_iff (length r) udp_token_size))
  ]

  open_udp_proxy_made :
      (listen ep : String) (peer : Uuid) (token : List ℕ) (o : Opened)
      → open_udp_proxy lib listen ep peer token ≡ some o
      → (o.proxy.expected_peer ≡ peer) × (o.proxy.expected_token ≡ token)
  unfolding open_udp_proxy open_sockets
  open_udp_proxy_made listen ep peer token o e = elim (Option-cases (lib.resolve_udp_addr listen)) [
    | inl bad ↦ absurd (ground arith)
    | inr (la, _) ↦ elim (Option-cases (lib.resolve_udp_addr ep)) [
      | inl bad ↦ absurd (ground arith)
      | inr (ua, _) ↦ ground arith
    ]
  ]

  session_of_lem :
      (members : Map String Value) (ep : String) (peer : Uuid) (token : List ℕ)
      → session_of lib members ≡ some (ep, peer, token)
      → (token_text : String) × (peer_text : String) × (lookup "udpToken" members
          ≡ some (Value.text token_text))
        × (lib.decode_string token_text ≡ some token)
        × (length token ≡ udp_token_size)
        × (lookup "peerId" members ≡ some (Value.text peer_text))
        × (lib.parse_uuid peer_text ≡ some peer)
  unfolding session_of
  session_of_lem members ep peer token e =
      let (token_text, token_ok) = text_of (lookup "udpToken" members) in
      let (peer_text, peer_ok) = text_of (lookup "peerId" members) in
      elim (Option-cases (valid_token lib token_text token_ok)) [
        | inl bad ↦ absurd (ground arith)
        | inr (raw, good) ↦ elim (Option-cases (lib.parse_uuid peer_text)) [
          | inl bad ↦ absurd (ground arith)
          | inr (id, parsed) ↦
              let (is_text, decoded, size) = valid_token_lem token_text token_ok raw good in
              (
                token_text,
                peer_text,
                text_of_lem (lookup "udpToken" members) is_text,
                ground arith,
                ground arith,
                text_of_lem (lookup "peerId" members) (ground arith),
                ground arith,
              )
        ]
      ]

  module _ (env : Document) (members : Map String Value) where
    abbrev with_members : Map String Value → Document
    with_members rest = insert "data" (Member.object rest) env

    members_of :
        (rest : Map String Value) → lookup "data" (with_members rest) ≡ some (Member.object rest)
    members_of rest = lookup-insert_self "data" (Member.object rest) env

    keeps_other : (rest : Map String Value) → KeepsEnvelope env (with_members rest)
    keeps_other rest key ne = lookup-insert_ne "data" key (Member.object rest) env ne

    abbrev stripped : Map String Value
    stripped = delete "udpToken" (delete "udpEndpoint" members)

    lookup-stripped :
        (key : String)
        → lookup key stripped ≡ (
            if "udpToken" == key
            then none
            else if "udpEndpoint" == key
            then none
            else lookup key members)
    lookup-stripped key = ground (
      arith,
      lookup-delete "udpToken" key (delete "udpEndpoint" members),
      lookup-delete "udpEndpoint" key members,
    )

    strips : Stripped env members (with_members stripped)
    strips = record {
      rest = stripped;
      inside = members_of stripped;
      silent = (lookup-stripped "udpEndpoint", lookup-stripped "udpToken");
      keeps = λ key ep tok.
          ground (arith, lookup-stripped key, ==_iff "udpToken" key, ==_iff "udpEndpoint" key);
      keeps_envelope = keeps_other stripped;
    }

    -- What a message without a session comes to.
    abbrev pub IsFallback : List ℕ → List ℕ → Type 0
    IsFallback payload out =
        (doc : Document) × Stripped env members doc
        × ((lib.marshal doc ≡ some out) ⊎ ((lib.marshal doc ≡ none) × (out ≡ payload)))

    pub falls_back :
        (payload : List ℕ) → IsFallback payload (strip_welcome_udp lib env members payload)
    unfolding strip_welcome_udp
    falls_back payload = (
      with_members stripped,
      strips,
      elim (Option-cases (lib.marshal (with_members stripped))) [
        | inl bad ↦ inr (bad, ground arith)
        | inr (out, good) ↦ inl (ground arith)
      ],
    )

    abbrev advertising : Opened → Map String Value
    advertising o = insert "udpEndpoint" (Value.text (lib.addr_text o.local_addr)) members

    lookup-advertising :
        (o : Opened) (key : String)
        → lookup key (advertising o) ≡ (
            if "udpEndpoint" == key
            then some (Value.text (lib.addr_text o.local_addr))
            else lookup key members)
    lookup-advertising o key = lookup-insert "udpEndpoint" key _ members

    advertises :
        (listen ep : String) (peer : Uuid) (token : List ℕ) (o : Opened)
        → session_of lib members ≡ some (ep, peer, token)
        → open_udp_proxy lib listen ep peer token ≡ some o
        → Advertised lib env members (with_members (advertising o)) o
    advertises listen ep peer token o session made =
        let (token_text, peer_text, tok, decoded, size, id, parsed) =
          session_of_lem members ep peer token session in
        let (same_peer, same_token) = open_udp_proxy_made listen ep peer token o made in
        record {
          rest = advertising o;
          token_text = token_text;
          peer_text = peer_text;
          inside = members_of (advertising o);
          endpoint = lookup-advertising o "udpEndpoint";
          token = lookup-advertising o "udpToken" ∙ tok;
          decoded = decoded ∙ ap some (sym same_token);
          size = ap length same_token ∙ size;
          peer = lookup-advertising o "peerId" ∙ id;
          parsed = parsed ∙ ap some (sym same_peer);
          keeps = λ key ne. ground (arith, lookup-advertising o key, ==_iff "udpEndpoint" key);
          keeps_envelope = keeps_other (advertising o);
        }

    -- A welcome comes out as it was, if it says nothing of UDP; or without its UDP metadata; or
    -- advertising a proxy.
    abbrev pub IsSettled : Rewriter → List ℕ → Rewriter × Rewritten → Type 0
    IsSettled r payload (r', res) =
        (res.handled ≡ true)
        × ((Silent members × (r' ≡ r) × (res.payload ≡ payload))
            ⊎ ((r' ≡ r) × IsFallback payload res.payload)
            ⊎ ((o : Opened) × (doc : Document) × (r'.opened ≡ some o)
                × Advertised lib env members doc o
                × (lib.marshal doc ≡ some res.payload)))

    pub advertise-IsSettled :
        (r : Rewriter) (payload : List ℕ) (ep : String) (peer : Uuid) (token : List ℕ)
        → session_of lib members ≡ some (ep, peer, token)
        → IsSettled r payload (advertise lib r env members payload (ep, peer, token))
    unfolding advertise
    advertise-IsSettled r payload ep peer token session =
        elim (Option-cases (open_udp_proxy lib r.listen_addr ep peer token)) [
          | inl shut ↦ rw (shut, advertise) (refl, inr (inl (refl, falls_back payload)))
          | inr (o, made) ↦ elim (Option-cases (lib.marshal (with_members (advertising o)))) [
            | inl bad ↦ rw (made, advertise, bad) (refl, inr (inl (refl, falls_back payload)))
            | inr (out, good) ↦
                rw (made, advertise, good)
                  (
                    refl,
                    inr (
                        inr (
                          o,
                          with_members (advertising o),
                          refl,
                          advertises r.listen_addr ep peer token o session made,
                          good,
                        )),
                  )
          ]
        ]
