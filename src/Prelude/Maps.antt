-- ===== src/Prelude/Maps.antt =====
-- Go's maps as association lists: a write replaces the entry of its key, or adds one.
-- The order in which Go ranges over a map is unspecified; here it is the list's.
use Prim.Native.Nat.{◌+◌, ◌≤◌, ◌<◌}
use mathlib.Core.Path.{◌≡◌, refl}
use mathlib.Core.Logic.{◌≢◌, inl, inr}
use mathlib.Core.Bool.{Bool, true, false}
use mathlib.Core.List.{List, [], ◌∷◌}
use mathlib.Core.Option.{Option, none, some}
use native.Mathlib.Omega.{arith}
use network_ultra_server.Prelude.Tests.{Eq, ◌==◌, ==_iff, ==_refl, if◌then◌else◌, Bool-cases}
use network_ultra_server.Prelude.Lists.{length}

abbrev pub Map {ℓ κ} : Type ℓ → Type κ → Type (ℓ ⊔ κ)
Map K V = List (K × V)

abbrev pub keep_unless {ℓ} : {V : Type ℓ} → (V → Bool) → Option V → Option V
keep_unless dead none = none
keep_unless dead (some v) = if dead v then none else some v

module _ {ℓ κ} {K : Type ℓ} {V : Type κ} ⦃e : Eq K⦄ where
  unfoldable pub lookup : K → Map K V → Option V
  lookup k [] = none
  lookup k ((key, value) ∷ rest) = if key == k then some value else lookup k rest

  unfoldable pub insert : K → V → Map K V → Map K V
  insert k v [] = (k, v) ∷ []
  insert k v ((key, old) ∷ rest) = if key == k then (k, v) ∷ rest else (key, old) ∷ insert k v rest

  unfoldable pub delete : K → Map K V → Map K V
  delete k [] = []
  delete k ((j, v) ∷ m) = let rest = delete k m in if j == k then rest else (j, v) ∷ rest

  unfoldable pub has : K → Map K V → Bool
  has k m = elim (lookup k m) [ none ↦ false | some _ ↦ true ]

  -- `for k, v := range m { if dead(v) { delete(m, k) } }`
  unfoldable pub delete_if : (V → Bool) → Map K V → Map K V
  delete_if dead [] = []
  delete_if dead ((j, v) ∷ m) =
      let rest = delete_if dead m in if dead v then rest else (j, v) ∷ rest

  pub lookup-insert :
      (key wanted : K) (value : V) (m : Map K V)
      → lookup wanted (insert key value m) ≡ (if key == wanted then some value else lookup wanted m)
  unfolding lookup insert
  lookup-insert key wanted value [] = refl
  lookup-insert key wanted value ((other, _) ∷ rest) = ground (
    arith,
    lookup-insert key wanted value rest,
    ==_iff key wanted,
    ==_iff other key,
    ==_iff other wanted,
  )

  pub lookup-insert_self : (k : K) (v : V) (m : Map K V) → lookup k (insert k v m) ≡ some v
  lookup-insert_self k v m = ground (arith, lookup-insert k k v m, ==_refl k)

  pub lookup-insert_ne :
      (k j : K) (v : V) (m : Map K V) → k ≢ j → lookup j (insert k v m) ≡ lookup j m
  lookup-insert_ne k j v m h = ground (arith, lookup-insert k j v m, ==_iff k j)

  pub lookup-delete :
      (k j : K) (m : Map K V) → lookup j (delete k m) ≡ (if k == j then none else lookup j m)
  unfolding lookup delete
  lookup-delete k j [] = ground arith
  lookup-delete k j ((i, v) ∷ m) =
      ground (arith, lookup-delete k j m, ==_iff i k, ==_iff i j, ==_iff k j)

  pub length-insert :
      (k : K) (v : V) (m : Map K V)
      → length (insert k v m) ≡ (if has k m then length m else length m + 1)
  unfolding insert has lookup
  length-insert k v [] = omega arith
  length-insert k v ((j, w) ∷ m) = ground (arith, length-insert k v m)

  pub length-insert-le : (k : K) (v : V) (m : Map K V) → length (insert k v m) ≤ length m + 1
  length-insert-le k v m = ground (arith, length-insert k v m)

  pub length-delete-le : (k : K) (m : Map K V) → length (delete k m) ≤ length m
  unfolding delete
  length-delete-le k [] = omega arith
  length-delete-le k ((j, v) ∷ m) = ground (arith, length-delete-le k m)

  pub length-delete_if-le : (dead : V → Bool) (m : Map K V) → length (delete_if dead m) ≤ length m
  unfolding delete_if
  length-delete_if-le dead [] = omega arith
  length-delete_if-le dead ((j, v) ∷ m) = ground (arith, length-delete_if-le dead m)

  pub length-delete-lt :
      (k : K) (v : V) (m : Map K V) → lookup k m ≡ some v → length (delete k m) < length m
  unfolding lookup delete
  length-delete-lt k v [] h = ground arith
  length-delete-lt k v ((j, w) ∷ m) h = ground (arith, length-delete-lt k v m, length-delete-le k m)

  pub lookup_of_empty : (k : K) (m : Map K V) → length m ≡ 0 → lookup k m ≡ none
  unfolding lookup
  lookup_of_empty k [] h = refl
  lookup_of_empty k (x ∷ m) h = absurd (omega arith)

  -- Each key once, as in any Go map.
  abbrev pub Distinct : Map K V → Type (ℓ ⊔ κ)
  Distinct [] = Unit
  Distinct ((k, v) ∷ m) = (lookup k m ≡ none) × Distinct m

  pub delete_absent : (k : K) (m : Map K V) → lookup k m ≡ none → delete k m ≡ m
  unfolding lookup delete
  delete_absent k [] h = refl
  delete_absent k ((j, v) ∷ m) h = ground (arith, delete_absent k m)

  pub Distinct-insert : (k : K) (v : V) (m : Map K V) → Distinct m → Distinct (insert k v m)
  unfolding insert lookup
  Distinct-insert k v [] d = (refl, tt)
  Distinct-insert k v ((j, w) ∷ m) d = elim (Bool-cases (j == k)) [
    | inl y ↦ rw y (ground (arith, ==_iff j k), d.1)
    | inr n ↦
        rw n
          (ground (arith, lookup-insert k j v m, ==_iff j k, ==_iff k j), Distinct-insert k v m d.1)
  ]

  pub Distinct-delete : (k : K) (m : Map K V) → Distinct m → Distinct (delete k m)
  unfolding delete
  Distinct-delete k [] d = tt
  Distinct-delete k ((j, w) ∷ m) d = elim (Bool-cases (j == k)) [
    | inl y ↦ rw y (Distinct-delete k m d.1)
    | inr n ↦ rw n (ground (arith, lookup-delete k j m), Distinct-delete k m d.1)
  ]

  pub lookup-delete_if :
      (k : K) (dead : V → Bool) (m : Map K V)
      → Distinct m
      → lookup k (delete_if dead m) ≡ keep_unless dead (lookup k m)
  unfolding lookup delete_if
  lookup-delete_if k dead [] d = refl
  lookup-delete_if k dead ((j, v) ∷ m) d = ground (arith, lookup-delete_if k dead m d.1, ==_iff j k)

  pub Distinct-delete_if :
      (dead : V → Bool) (m : Map K V) → Distinct m → Distinct (delete_if dead m)
  unfolding delete_if
  Distinct-delete_if dead [] d = tt
  Distinct-delete_if dead ((j, v) ∷ m) d = elim (Bool-cases (dead v)) [
    | inl y ↦ rw y (Distinct-delete_if dead m d.1)
    | inr n ↦ rw n (ground (arith, lookup-delete_if j dead m d.1), Distinct-delete_if dead m d.1)
  ]

  pub length-delete_if-delete-le :
      (k : K) (dead : V → Bool) (m : Map K V)
      → length (delete_if dead (delete k m)) ≤ length (delete_if dead m)
  unfolding delete delete_if
  length-delete_if-delete-le k dead [] = omega arith
  length-delete_if-delete-le k dead ((j, v) ∷ m) =
      ground (arith, length-delete_if-delete-le k dead m)

  pub length-insert-pos : (k : K) (v : V) (m : Map K V) → 0 < length (insert k v m)
  unfolding insert
  length-insert-pos k v [] = omega arith
  length-insert-pos k v ((j, w) ∷ m) = ground arith

  pub has-insert :
      (k j : K) (v : V) (m : Map K V) → has j (insert k v m) ≡ (if k == j then true else has j m)
  unfolding has
  has-insert k j v m = ground (arith, lookup-insert k j v m)

  pub has-delete :
      (k j : K) (m : Map K V) → has j (delete k m) ≡ (if k == j then false else has j m)
  unfolding has
  has-delete k j m = ground (arith, lookup-delete k j m)

  pub has_of_lookup : (k : K) (v : V) (m : Map K V) → lookup k m ≡ some v → has k m ≡ true
  unfolding has
  has_of_lookup k v m h = ground arith

  pub lookup_of_has : (k : K) (m : Map K V) → has k m ≡ true → (v : V) × (lookup k m ≡ some v)
  unfolding has
  lookup_of_has k m h = ground arith

  pub absent_of_has : (k : K) (m : Map K V) → has k m ≡ false → lookup k m ≡ none
  unfolding has
  absent_of_has k m h = ground arith

  pub pos_of_has : (k : K) (m : Map K V) → has k m ≡ true → 0 < length m
  unfolding has lookup
  pos_of_has k [] h = ground arith
  pos_of_has k (x ∷ m) h = omega arith
