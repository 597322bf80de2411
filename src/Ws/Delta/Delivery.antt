-- ===== src/Ws/Delta/Delivery.antt =====
-- internal/ws/delta.go: who is told of a change.
use network_ultra_server.Prelude.{
  ℕ, ◌+◌, ◌≡◌, refl, ap, ◌∙◌, inl, inr, Bool, true, false, List, [], ◌∷◌, Option, none, some, ◌==◌,
  ==_iff, if◌then◌else◌, arith, Bool-cases, bytes_eq,
}
use network_ultra_server.Prelude.Maps.{
  Map, lookup, insert, delete, lookup-insert, lookup-delete, Distinct, Distinct-insert,
  Distinct-delete,
}
use network_ultra_server.Room.State.{Uuid, RoomListDelta}
use network_ultra_server.Ws.Delta.{
  DeltaBroker, RoomListDeltaData, new_delta_broker, subscribe, unsubscribe, calls_of, publish,
  delta_data,
}

-- Each peer's send function is the peer's own; true subscribes, false unsubscribes.
abbrev pub run : List (Bool × Uuid) → DeltaBroker Uuid → DeltaBroker Uuid
run [] b = b
run ((true, id) ∷ ops) b = run ops (subscribe b id id)
run ((false, id) ∷ ops) b = run ops (unsubscribe b id)

-- Whether the last operation of a peer is a subscription.
abbrev pub is_subscribed : Uuid → List (Bool × Uuid) → Bool → Bool
is_subscribed id [] before = before
is_subscribed id ((on, other) ∷ ops) before =
    is_subscribed id ops (if other == id then on else before)

-- How often a send function is called.
abbrev pub called : Uuid → List (Uuid × List ℕ) → ℕ
called id [] = 0
called id ((s, _) ∷ calls) = (if s == id then 1 else 0) + called id calls

Own : Map Uuid Uuid → Type 0
Own m = (k v : Uuid) → lookup k m ≡ some v → v ≡ k

is_some : Option Uuid → Bool
is_some none = false
is_some (some _) = true

record IsOwn (b : DeltaBroker Uuid) : Type 0 where
  distinct : Distinct b.subscribers
  own : Own b.subscribers

called-Own :
    (id : Uuid) (m : Map Uuid Uuid) (body : List ℕ)
    → Distinct m
    → Own m
    → called id (calls_of m body) ≡ (if is_some (lookup id m) then 1 else 0)
unfolding lookup is_some Own
called-Own id [] body d own = refl
called-Own id ((k, v) ∷ m) body d own =
    let same : v ≡ k = own k v (ground (arith, ==_iff k k)) in
    let rest : Own m = λ j w h. own j w (ground (arith, h, d.0, ==_iff k j)) in
    let later = called-Own id m body d.1 rest in
    elim (Bool-cases (k == id)) [
      | inl y ↦ ground (arith, later, same, d.0, ==_iff k id, ==_iff v id)
      | inr n ↦ ground (arith, later, same, ==_iff k id, ==_iff v id)
    ]

is_some-insert :
    (id k v : Uuid) (m : Map Uuid Uuid)
    → is_some (lookup id (insert k v m)) ≡ (if k == id then true else is_some (lookup id m))
unfolding is_some
is_some-insert id k v m = ground (arith, lookup-insert k id v m)

is_some-delete :
    (id k : Uuid) (m : Map Uuid Uuid)
    → is_some (lookup id (delete k m)) ≡ (if k == id then false else is_some (lookup id m))
unfolding is_some
is_some-delete id k m = ground (arith, lookup-delete k id m)

subscribe-IsOwn : (b : DeltaBroker Uuid) (id : Uuid) → IsOwn b → IsOwn (subscribe b id id)
unfolding subscribe Own
subscribe-IsOwn b id ok = record {
  distinct = Distinct-insert id id b.subscribers ok.distinct;
  own = λ k v h. ground (arith, ok.own k v, lookup-insert id k id b.subscribers, ==_iff id k);
}

unsubscribe-IsOwn : (b : DeltaBroker Uuid) (id : Uuid) → IsOwn b → IsOwn (unsubscribe b id)
unfolding unsubscribe Own
unsubscribe-IsOwn b id ok = record {
  distinct = Distinct-delete id b.subscribers ok.distinct;
  own = λ k v h. ground (arith, ok.own k v, lookup-delete id k b.subscribers);
}

run-IsOwn : (ops : List (Bool × Uuid)) (b : DeltaBroker Uuid) → IsOwn b → IsOwn (run ops b)
run-IsOwn [] b ok = ok
run-IsOwn ((true, id) ∷ ops) b ok = run-IsOwn ops (subscribe b id id) (subscribe-IsOwn b id ok)
run-IsOwn ((false, id) ∷ ops) b ok = run-IsOwn ops (unsubscribe b id) (unsubscribe-IsOwn b id ok)

run-subscribed :
    (id : Uuid) (ops : List (Bool × Uuid)) (b : DeltaBroker Uuid)
    → is_some (lookup id (run ops b).subscribers)
      ≡ is_subscribed id ops (is_some (lookup id b.subscribers))
unfolding subscribe unsubscribe
run-subscribed id [] b = refl
run-subscribed id ((true, other) ∷ ops) b =
    run-subscribed id ops (subscribe b other other)
    ∙ ap (is_subscribed id ops) (is_some-insert id other other b.subscribers)
run-subscribed id ((false, other) ∷ ops) b =
    run-subscribed id ops (unsubscribe b other)
    ∙ ap (is_subscribed id ops) (is_some-delete id other b.subscribers)

-- If the delta can be encoded, publishing it calls a peer's send function once if the last that the
-- peer did was to subscribe, and not at all otherwise.
publish_once :
    (encode : RoomListDeltaData → Option (List ℕ)) (body : List ℕ) (ops : List (Bool × Uuid))
    (delta : RoomListDelta) (id : Uuid)
    → encode (delta_data delta) ≡ some body
    → called id (publish encode (run ops new_delta_broker) delta)
      ≡ (if is_subscribed id ops false then 1 else 0)
unfolding publish lookup Own is_some
publish_once encode body ops delta id h =
    let ok =
      run-IsOwn ops new_delta_broker
        (record { distinct = tt; own = λ k v e. absurd (ground arith) }) in
    rw
      (
        h,
        publish,
        called-Own id (run ops new_delta_broker).subscribers body ok.distinct ok.own,
        run-subscribed id ops new_delta_broker,
      )
      refl
