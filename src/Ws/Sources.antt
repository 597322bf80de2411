-- ===== src/Ws/Sources.antt =====
-- Which subscriptions are accepted.
use network_ultra_server.Prelude.{
  ◌≡◌, ◌≤◌, ◌↔◌, refl, inl, inr, Bool, true, false, String, List, [], ◌∷◌, Option, some, arith,
  Option-cases, length, bytes_eq, subst,
}
use network_ultra_server.Prelude.Maps.{Map, insert, has}
use network_ultra_server.Room.State.{Uuid}
use network_ultra_server.Ws.Labels.{
  Ids, Ids-cases, parse_ids, parse_subscription_ids, max_peers_per_room,
}

-- No identifier is one of those seen before, or occurs twice.
abbrev pub Fresh : Map Uuid (Unit {0}) → List Uuid → Type 0
Fresh seen [] = Unit
Fresh seen (id ∷ rest) = (has id seen ≡ false) × Fresh (insert id tt seen) rest

module _ (parse : String → Option Uuid) where
  -- The texts are the identifiers', one by one.
  abbrev pub Reads : List String → List Uuid → Type 0
  Reads [] [] = Unit
  Reads [] (id ∷ found) = Path Bool true false
  Reads (text ∷ raw) [] = Path Bool true false
  Reads (text ∷ raw) (id ∷ found) = (parse text ≡ some id) × Reads raw found

  accepted_lem :
      (raw : List String) (seen : Map Uuid (Unit {0})) (found : List Uuid)
      → parse_ids parse raw seen ≡ Ids.ids found
      → Reads raw found × Fresh seen found
  unfolding parse_ids
  accepted_lem [] seen [] h = (tt, tt)
  accepted_lem [] seen (x ∷ xs) h = absurd (ground arith)
  accepted_lem (text ∷ raw) seen found h = elim (Option-cases (parse text)) [
    | inl bad ↦ absurd (ground arith)
    | inr (id, good) ↦ elim (Ids-cases (parse_ids parse raw (insert id tt seen))) [
      | inr (e, refused) ↦ absurd (ground arith)
      | inl (rest, read) ↦
          subst (λ (xs : List Uuid). Reads (text ∷ raw) xs × Fresh seen xs) {x = id ∷ rest}
            (ground arith)
            (let (reads, new) = accepted_lem raw (insert id tt seen) rest read in
              ((good, reads), (ground arith, new)))
    ]
  ]

  accepts_lem :
      (raw : List String) (seen : Map Uuid (Unit {0})) (found : List Uuid)
      → Reads raw found
      → Fresh seen found
      → parse_ids parse raw seen ≡ Ids.ids found
  unfolding parse_ids
  accepts_lem [] seen [] reads new = refl
  accepts_lem [] seen (x ∷ xs) reads new = absurd (ground arith)
  accepts_lem (text ∷ raw) seen [] reads new = absurd (ground arith)
  accepts_lem (text ∷ raw) seen (id ∷ rest) reads new =
      let ih = accepts_lem raw (insert id tt seen) rest reads.1 new.1 in ground arith

  length-Reads :
      (raw : List String) (found : List Uuid) → Reads raw found → length found ≡ length raw
  length-Reads [] [] reads = refl
  length-Reads [] (x ∷ xs) reads = absurd (ground arith)
  length-Reads (text ∷ raw) [] reads = absurd (ground arith)
  length-Reads (text ∷ raw) (id ∷ rest) reads = omega (arith, length-Reads raw rest reads.1)

  -- A subscription is accepted with a list of identifiers exactly if its texts parse as those, one
  -- by one, none occurs twice, and they are no more than a room's peers.
  pub parse_subscription_ids_iff :
      (raw : List String) (found : List Uuid)
      → (parse_subscription_ids parse raw ≡ Ids.ids found)
        ↔ (Reads raw found × Fresh [] found × (length found ≤ max_peers_per_room))
  unfolding parse_subscription_ids
  parse_subscription_ids_iff raw found = (there, back)
    where
      there :
          parse_subscription_ids parse raw ≡ Ids.ids found
          → Reads raw found × Fresh [] found × (length found ≤ max_peers_per_room)
      there h =
          let (reads, new) = accepted_lem raw [] found (ground arith) in
          (reads, new, ground (arith, length-Reads raw found reads))

      back :
          Reads raw found × Fresh [] found × (length found ≤ max_peers_per_room)
          → parse_subscription_ids parse raw ≡ Ids.ids found
      back (reads, new, few) =
          let read = accepts_lem raw [] found reads new in
          ground (arith, length-Reads raw found reads)
