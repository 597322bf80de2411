-- ===== src/RateLimit/Limiter.antt =====
-- internal/ratelimit/limiter.go. The clock's reading is an argument; times are in nanoseconds.
-- The mutex makes each call one step.
pub mod Live
pub mod Allow
pub mod Pair
pub mod Window
use network_ultra_server.Prelude.{
  ℕ, ◌+◌, ◌%◌, ◌^◌, String, Bool, true, false, ◌&&◌, ◌||◌, not, none, some, [], ◌==◌, nat_eqb, ltb,
  leb, if◌then◌else◌, length, string_eq,
}
use network_ultra_server.Prelude.Maps.{Map, lookup, insert, delete, delete_if}

pub record Entry : Type 0 where
  pub reset_at : ℕ
  pub count : ℕ

pub record Limiter : Type 0 where
  pub entries : Map String Entry
  pub calls : ℕ
  pub max_entries : ℕ

abbrev pub default_max_entries : ℕ
default_max_entries = 65536

abbrev pub new : Limiter
new = record { entries = []; calls = 0; max_entries = default_max_entries }

unfoldable pub normalize_key : String → String
normalize_key key = if key == "" then "unknown" else key

abbrev pub expired : ℕ → Entry → Bool
expired now e = not (ltb now e.reset_at)

abbrev pub fresh : ℕ → ℕ → Entry
fresh now window = record { reset_at = now + window; count = 0 }

-- The entry, and whether the table holds it; one that has expired is taken out.
unfoldable pub current_entry : Limiter → String → ℕ → ℕ → Limiter × Entry × Bool
current_entry l key now window = elim (lookup key l.entries) [
  | none ↦ (l, fresh now window, false)
  | some e ↦
      if expired now e
      then (record l { entries = delete key l.entries }, fresh now window, false)
      else (l, e, true)
]

unfoldable pub cleanup_expired : Limiter → ℕ → Limiter
cleanup_expired l now = record l { entries = delete_if (expired now) l.entries }

unfoldable pub ensure_capacity : Limiter → ℕ → ℕ → Limiter × Bool
ensure_capacity l now needed =
    if nat_eqb needed 0 || leb (length l.entries + needed) l.max_entries
    then (l, true)
    else (let l' = cleanup_expired l now in (l', leb (length l'.entries + needed) l'.max_entries))

-- `calls` is a uint64.
unfoldable pub after_consume : Limiter → ℕ → Limiter
after_consume l now =
    let l' = record l { calls = (l.calls + 1) % 2 ^ 64 } in
    if nat_eqb (l'.calls % 1024) 0 then cleanup_expired l' now else l'

abbrev pub charge : Limiter → String → Entry → Limiter
charge l key e = record l { entries = insert key (record e { count = e.count + 1 }) l.entries }

-- `if !exists && !l.ensureCapacity(now, 1)`: the table is swept only for a new key.
unfoldable pub admit_new : Bool → Limiter → ℕ → Limiter × Bool
admit_new true l now = (l, true)
admit_new false l now = ensure_capacity l now 1

unfoldable pub allow : Limiter → ℕ → String → ℕ → ℕ → Limiter × Bool
allow l now raw limit window =
    if leb limit 0
    then (l, true)
    else (let key = normalize_key raw in
        let (l1, e, exists) = current_entry l key now window in
        let (l2, fits) = admit_new exists l1 now in
        if not fits
        then (l2, false)
        else if leb limit e.count
        then (l2, false)
        else (after_consume (charge l2 key e) now, true))

-- `first == second`: one budget, charged once.
unfoldable pub allow_same : Limiter → ℕ → String → ℕ → Entry → Bool → Limiter × Bool
allow_same l now key limit e exists =
    if leb limit e.count
    then (l, false)
    else (let (l', fits) = admit_new exists l now in
        if not fits then (l', false) else (after_consume (charge l' key e) now, true))

abbrev pub needed : Bool → Bool → ℕ
needed a_exists b_exists = (if a_exists then 0 else 1) + (if b_exists then 0 else 1)

unfoldable pub allow_pair : Limiter → ℕ → String → String → ℕ → ℕ → Limiter × Bool
allow_pair l now raw_first raw_second limit window =
    if leb limit 0
    then (l, true)
    else (let first = normalize_key raw_first in
        let second = normalize_key raw_second in
        let (l1, a, a_exists) = current_entry l first now window in
        if first == second
        then allow_same l1 now first limit a a_exists
        else (let (l2, b, b_exists) = current_entry l1 second now window in
            if leb limit a.count || leb limit b.count
            then (l2, false)
            else (let (l3, fits) = ensure_capacity l2 now (needed a_exists b_exists) in
                if not fits
                then (l3, false)
                else (after_consume (charge (charge l3 first a) second b) now, true))))
