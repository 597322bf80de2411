-- ===== src/Udp/Security.antt =====
-- What the data plane lets through, and what datagrams do to a bound address.
use network_ultra_server.Prelude.{
  ℕ, ◌≡◌, refl, ap, ◌∙◌, ◌⊎◌, inl, inr, String, false, List, some, ◌==◌, ==_iff, arith, bytes_eq,
  Bool-cases, Option-cases,
}
use network_ultra_server.Prelude.Maps.{Map, lookup}
use network_ultra_server.Proto.Audio.{unpack, AudioFrameHeader}
use network_ultra_server.Proto.Audio
use network_ultra_server.Proto.Udp.{unpack_udp_ping}
use network_ultra_server.Proto.Udp
use network_ultra_server.Room.State.{Uuid, Peer, Frame}
use network_ultra_server.Udp.State.{UdpAddr, addr_eq, addr_string, Binding, Server}
use network_ultra_server.Udp.Handlers.{
  Verdict, handle_audio, handle_hello, handle_ping, forward_audio, dispatch,
}
use network_ultra_server.Udp.Binding.Hello.{handle_hello_cases, not_rebind, addr_at, counted}

-- The address that a peer holds after a datagram is the one that it held before.
abbrev pub Kept : Uuid → UdpAddr → Server → Type 0
Kept id a t = (a' : UdpAddr) × (lookup id t.udp_addr ≡ some a') × (addr_string a' ≡ addr_string a)

module _ (uuid_string : Uuid → String) (s : Server) (peers : Map Uuid Peer) (pkt : List ℕ)
    (src : UdpAddr) (now : ℕ) where
  -- An audio datagram is forwarded only if its source address is bound to the peer that its header
  -- names, who is stored, not muted and in the room it goes to; the room gets the datagram as it
  -- came, under that peer's identifier.
  pub handle_audio_forwards :
      {room : Uuid} {f : Frame}
      → (handle_audio uuid_string s peers pkt src now).1 ≡ Verdict.forwarded room f
      → (b : Binding) × (p : Peer) × (hdr : AudioFrameHeader) × (payload : List ℕ) × (lookup
            (addr_string src)
            s.peer_by_addr
          ≡ some b)
        × (unpack pkt ≡ Audio.ok (hdr, payload))
        × (hdr.source_peer_id ≡ b.peer)
        × (lookup b.peer peers ≡ some p)
        × (p.muted ≡ false)
        × (p.cur_room ≡ some room)
        × (f.payload ≡ pkt)
        × (f.source_peer_id ≡ p.id)
  unfolding handle_audio forward_audio
  handle_audio_forwards {room} {f} h =
      elim (Option-cases (lookup (addr_string src) s.peer_by_addr)) [
        | inl unknown ↦ absurd (ground arith)
        | inr (b, at) ↦ elim (Audio.Result-cases (unpack pkt)) [
          | inl (e, bad) ↦ absurd (ground arith)
          | inr ((hdr, payload), good) ↦ elim (Option-cases (lookup b.peer peers)) [
            | inl nobody ↦ absurd (ground arith)
            | inr (p, found) ↦ (
              b,
              p,
              hdr,
              payload,
              at,
              good,
              ground (arith, ==_iff hdr.source_peer_id b.peer),
              found,
              ground arith,
              ground arith,
              ground arith,
              ground arith,
            )
          ]
        ]
      ]

  hello_keeps :
      (id : Uuid) (a : UdpAddr)
      → lookup id s.udp_addr ≡ some a
      → Kept id a (handle_hello uuid_string s pkt src now).0
  hello_keeps id a at = elim (handle_hello_cases uuid_string s src now pkt) [
    | inl (_, (_, _, _, same)) ↦ (a, rw same at, refl)
    | inr (hello, _, (_, _, same, _), e) ↦ rw e (elim (Bool-cases (hello.peer_id == id)) [
      | inl y ↦ (
        src,
        ground (
          arith,
          addr_at (counted uuid_string s src now hello.peer_id) hello.peer_id hello.token src now
              id,
        ),
        ground (
          arith,
          not_rebind s hello.peer_id hello.token src now same a,
          at,
          ==_iff hello.peer_id id,
        ),
      )
      | inr n ↦ (
        a,
        ground (
          arith,
          at,
          addr_at (counted uuid_string s src now hello.peer_id) hello.peer_id hello.token src now
              id,
        ),
        refl,
      )
    ])
  ]

  audio_address : (handle_audio uuid_string s peers pkt src now).0.udp_addr ≡ s.udp_addr
  unfolding handle_audio
  audio_address = elim (Option-cases (lookup (addr_string src) s.peer_by_addr)) [
    | inl unknown ↦ ground arith
    | inr (b, at) ↦ elim (Audio.Result-cases (unpack pkt)) [
      | inl (e, bad) ↦ ground arith
      | inr ((hdr, payload), good) ↦ ground arith
    ]
  ]

  ping_address : (handle_ping s pkt src now).0.udp_addr ≡ s.udp_addr
  unfolding handle_ping
  ping_address = elim (Option-cases (lookup (addr_string src) s.peer_by_addr)) [
    | inl unknown ↦ elim (Udp.Result-cases (unpack_udp_ping pkt)) [
      | inl (e, bad) ↦ ground arith
      | inr (id, good) ↦ ground arith
    ]
    | inr (b, at) ↦ elim (Udp.Result-cases (unpack_udp_ping pkt)) [
      | inl (e, bad) ↦ ground arith
      | inr (id, good) ↦ elim (Bool-cases (b.peer == id)) [
        | inl y ↦ ground arith
        | inr n ↦ ground arith
      ]
    ]
  ]

  dispatch_address :
      ((dispatch uuid_string s peers pkt src now).0.udp_addr ≡ s.udp_addr)
      ⊎ ((dispatch uuid_string s peers pkt src now).0.udp_addr
          ≡ (handle_hello uuid_string s pkt src now).0.udp_addr)
  unfolding dispatch
  dispatch_address = ground (arith, audio_address, ping_address)

  -- No datagram from anywhere moves a peer that has a UDP address: afterwards it has one that
  -- prints the same.
  pub dispatch_keeps_address :
      (id : Uuid) (a : UdpAddr)
      → lookup id s.udp_addr ≡ some a
      → Kept id a (dispatch uuid_string s peers pkt src now).0
  dispatch_keeps_address id a at = elim dispatch_address [
    | inl e ↦ (a, ap (lookup id) e ∙ at, refl)
    | inr e ↦ let (a', at', same) = hello_keeps id a at in (a', ap (lookup id) e ∙ at', same)
  ]
