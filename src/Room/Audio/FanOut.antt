-- ===== src/Room/Audio/FanOut.antt =====
-- Who hears a frame.
use network_ultra_server.Prelude.{
  ℕ, ◌+◌, ◌≡◌, ◌≢◌, ◌⊎◌, refl, subst, Option, Bool, true, false, some, Bool-cases, ◌&&◌, not, List,
  [], ◌∷◌, none, ◌==◌, ==_iff, arith, if◌then◌else◌, bytes_eq, Option-cases, inl, inr,
}
use network_ultra_server.Prelude.Maps.{Map, lookup, has, Distinct}
use network_ultra_server.Room.State.{Uuid, Frame, Room, Peer}
use network_ultra_server.Room.Ops.{is_subscribed}
use network_ultra_server.Room.Audio.{Delivery, recipients, send_all, speaks, fan_out}

-- How many of the deliveries go to a peer.
unfoldable pub deliveries_to : Uuid → List Delivery → ℕ
deliveries_to pid [] = 0
deliveries_to pid (d ∷ ds) = (if d.to == pid then 1 else 0) + deliveries_to pid ds

-- The peer is in the store and subscribes to the source.
abbrev pub listens : Map Uuid Peer → Uuid → Uuid → Bool
listens store src pid = elim (lookup pid store) [ none ↦ false | some p ↦ is_subscribed p src ]

-- The peer subscribes to all, or the source is among those that it subscribes to.
abbrev pub Takes : Uuid → Option (Map Uuid (Unit {0})) → Type 0
Takes src none = Unit
Takes src (some subs) = lookup src subs ≡ some tt

-- The source is an unmuted member, and the peer another member that subscribes to it.
abbrev pub Hears : Map Uuid Peer → Room → Uuid → Uuid → Type 0
Hears store r src pid =
    (lookup src r.peers ≡ some tt)
    × ((s : Peer) × (lookup src store ≡ some s) × (s.muted ≡ false))
    × (lookup pid r.peers ≡ some tt)
    × (pid ≢ src)
    × ((p : Peer) × (lookup pid store ≡ some p) × Takes src p.subscribed)

has-lookup : (k : Uuid) (m : Map Uuid (Unit {0})) → has k m ≡ true → lookup k m ≡ some tt
unfolding has
has-lookup k m h = ground arith

lookup-has : (k : Uuid) (m : Map Uuid (Unit {0})) → lookup k m ≡ some tt → has k m ≡ true
unfolding has
lookup-has k m h = ground arith

subscribed-Takes : (p : Peer) (src : Uuid) → is_subscribed p src ≡ true → Takes src p.subscribed
unfolding is_subscribed
subscribed-Takes p src h = elim (Option-cases p.subscribed) [
  | inl all ↦ rw all tt
  | inr (subs, some_of) ↦ rw some_of (has-lookup src subs (ground arith))
]

Takes-subscribed : (p : Peer) (src : Uuid) → Takes src p.subscribed → is_subscribed p src ≡ true
unfolding is_subscribed
Takes-subscribed p src h = elim (Option-cases p.subscribed) [
  | inl all ↦ ground arith
  | inr (subs, some_of) ↦
      let listed : lookup src subs ≡ some tt = subst (Takes src) some_of h in
      ground (arith, lookup-has src subs listed)
]

hears_lem :
    (store : Map Uuid Peer) (r : Room) (src pid : Uuid)
    → speaks store r src ≡ true
    → has pid r.peers ≡ true
    → (pid == src) ≡ false
    → listens store src pid ≡ true
    → Hears store r src pid
unfolding speaks
hears_lem store r src pid speaking member other listening =
    let differ : pid ≢ src = ground (arith, ==_iff pid src) in
    elim (Option-cases (lookup src store)) [
      | inl gone ↦ absurd (ground arith)
      | inr (s, at) ↦ elim (Option-cases (lookup pid store)) [
        | inl gone ↦ absurd (ground arith)
        | inr (p, at') ↦ (
          has-lookup src r.peers (ground arith),
          (s, at, ground arith),
          has-lookup pid r.peers member,
          differ,
          (p, at', subscribed-Takes p src (ground arith)),
        )
      ]
    ]

heard_lem :
    (store : Map Uuid Peer) (r : Room) (src pid : Uuid)
    → Hears store r src pid
    → (speaks store r src && (has pid r.peers && (not (pid == src) && listens store src pid)))
      ≡ true
unfolding speaks
heard_lem store r src pid (source, (s, at, unmuted), member, differ, (p, at', takes)) = ground (
  arith,
  lookup-has src r.peers source,
  lookup-has pid r.peers member,
  ==_iff pid src,
  Takes-subscribed p src takes,
)

module _ (udp : Uuid → List ℕ → Bool) (store : Map Uuid Peer)
    (named : (pid : Uuid) (p : Peer) → lookup pid store ≡ some p → p.id ≡ pid) where
  recipients_exact :
      (src pid : Uuid) (payload : List ℕ) (members : Map Uuid (Unit {0}))
      → Distinct members
      → deliveries_to pid (send_all udp payload (recipients src store members))
        ≡ (if has pid members && (not (pid == src) && listens store src pid) then 1 else 0)
  unfolding recipients send_all deliveries_to has lookup
  recipients_exact src pid payload [] d = refl
  recipients_exact src pid payload ((id, u) ∷ rest) d = elim (Option-cases (lookup id store)) [
    | inl gone ↦ ground (
      arith,
      recipients_exact src pid payload rest d.1,
      ==_iff id src,
      ==_iff id pid,
      ==_iff pid src,
    )
    | inr (p, e) ↦ ground (
      arith,
      recipients_exact src pid payload rest d.1,
      named id p e,
      ==_iff id src,
      ==_iff id pid,
      ==_iff pid src,
    )
  ]

  fan_out_count :
      (r : Room) (f : Frame) (pid : Uuid)
      → Distinct r.peers
      → deliveries_to pid (fan_out udp store r f).0 ≡ (
          if speaks store r f.source_peer_id
            && (has pid r.peers
                && (not (pid == f.source_peer_id) && listens store f.source_peer_id pid))
          then 1
          else 0)
  unfolding fan_out deliveries_to
  fan_out_count r f pid d =
      ground (arith, recipients_exact f.source_peer_id pid f.payload r.peers d)

  -- In a room that lists each member once, where peers are stored under their own identifiers, a
  -- frame is sent once to a peer if its source is a stored member that is not muted and the peer
  -- another stored member that subscribes to all or lists the source, and otherwise it is not sent
  -- to the peer.
  pub fan_out_exact :
      (r : Room) (f : Frame) (pid : Uuid)
      → Distinct r.peers
      → ((deliveries_to pid (fan_out udp store r f).0 ≡ 1) × Hears store r f.source_peer_id pid)
        ⊎ ((deliveries_to pid (fan_out udp store r f).0 ≡ 0) × ¬ Hears store r f.source_peer_id pid)
  fan_out_exact r f pid d =
      let src = f.source_peer_id in
      elim (Bool-cases
        (speaks store r src && (has pid r.peers && (not (pid == src) && listens store src pid)))) [
          | inl y ↦ inl (
            ground (arith, fan_out_count r f pid d),
            hears_lem store r src pid (ground arith) (ground arith) (ground arith) (ground arith),
          )
          | inr n ↦ inr (
            ground (arith, fan_out_count r f pid d),
            λ h. absurd (ground (arith, heard_lem store r src pid h)),
          )
        ]

  abbrev pub Unchanged : List ℕ → List Delivery → Type 0
  Unchanged payload [] = Unit
  Unchanged payload (d ∷ ds) = (d.payload ≡ payload) × Unchanged payload ds

  send_all-Unchanged :
      (payload : List ℕ) (ps : List Peer) → Unchanged payload (send_all udp payload ps)
  unfolding send_all
  send_all-Unchanged payload [] = tt
  send_all-Unchanged payload (p ∷ ps) = (refl, send_all-Unchanged payload ps)
