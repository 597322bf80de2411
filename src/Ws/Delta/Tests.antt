-- ===== src/Ws/Delta/Tests.antt =====
-- internal/ws/delta.go: two peers subscribe, the first twice, and the second leaves again.
use network_ultra_server.Prelude.{ℕ, ◌≡◌, refl, true, false, [], ◌∷◌, some, List, Option, Bool}
use network_ultra_server.Prelude.Maps.{insert, delete}
use network_ultra_server.Room.State.{Uuid, RoomListDelta}
use network_ultra_server.Ws.Delta.{
  RoomListDeltaData, new_delta_broker, subscribe, unsubscribe, publish,
}
use network_ultra_server.Ws.Delta.Delivery.{run, called}

abbrev views : List (Bool × Uuid)
views = (true, 1 ∷ []) ∷ (true, 2 ∷ []) ∷ (true, 1 ∷ []) ∷ (false, 2 ∷ []) ∷ []

abbrev gone : RoomListDelta
gone = record { added = []; removed = "stage" ∷ []; updated = [] }

abbrev number_of_changes : RoomListDeltaData → Option (List ℕ)
number_of_changes d = some (7 ∷ [])

first_told_once : called (1 ∷ []) (publish number_of_changes (run views new_delta_broker) gone) ≡ 1
unfolding publish subscribe unsubscribe insert delete
first_told_once = refl

second_not_told : called (2 ∷ []) (publish number_of_changes (run views new_delta_broker) gone) ≡ 0
unfolding publish subscribe unsubscribe insert delete
second_not_told = refl
