-- ===== src/RateLimit/Limiter/Live.antt =====
-- The entries that count at a time, and what the housekeeping of the table does to them.
use network_ultra_server.Prelude.{
  ℕ, ◌+◌, ◌%◌, ◌^◌, ◌≤◌, ◌<◌, ◌≡◌, refl, String, Bool, true, false, Option, none, some, arith, ◌==◌,
  ==_iff, if◌then◌else◌, length, string_eq, ◌⊎◌, inl, inr,
}
use network_ultra_server.Prelude.Maps.{
  lookup, delete, Distinct, lookup-insert, lookup-delete, lookup-delete_if, Distinct-insert,
  Distinct-delete, Distinct-delete_if, keep_unless, length-delete_if-le, length-delete_if-delete-le,
  length-delete-le, length-insert, has,
}
use network_ultra_server.RateLimit.Limiter.{
  Entry, Limiter, expired, fresh, current_entry, cleanup_expired, ensure_capacity, after_consume,
  charge,
}

-- The entry of a key, unless it has expired.
abbrev pub live : Limiter → ℕ → String → Option Entry
live l now k = keep_unless (expired now) (lookup k l.entries)

-- The entry that a request is charged to.
abbrev pub budget : Limiter → ℕ → ℕ → String → Entry
budget l now window k = elim (live l now k) [ none ↦ fresh now window | some e ↦ e ]

abbrev pub is_live : Limiter → ℕ → String → Bool
is_live l now k = elim (live l now k) [ none ↦ false | some _ ↦ true ]

-- Each key once, and no more keys than the limit.
pub record IsValid (l : Limiter) : Type 0 where
  pub distinct : Distinct l.entries
  pub bounded : length l.entries ≤ l.max_entries

keep_unless_twice :
    (now : ℕ) (o : Option Entry)
    → keep_unless (expired now) (keep_unless (expired now) o) ≡ keep_unless (expired now) o
keep_unless_twice now none = refl
keep_unless_twice now (some e) = ground arith

module _ (l : Limiter) (now : ℕ) where
  pub live-cleanup_expired :
      (k : String) → Distinct l.entries → live (cleanup_expired l now) now k ≡ live l now k
  unfolding cleanup_expired
  live-cleanup_expired k d =
      rw (lookup-delete_if k (expired now) l.entries d) (keep_unless_twice now (lookup k l.entries))

  pub cleanup_expired-IsValid : IsValid l → IsValid (cleanup_expired l now)
  unfolding cleanup_expired
  cleanup_expired-IsValid v = record {
    distinct = Distinct-delete_if (expired now) l.entries v.distinct;
    bounded = omega (arith, length-delete_if-le (expired now) l.entries, v.bounded);
  }

  -- The three ways in which `ensureCapacity` returns.
  pub ensure_capacity_cases :
      (needed : ℕ)
      → ((ensure_capacity l now needed ≡ (l, true))
          × ((needed ≡ 0) ⊎ (length l.entries + needed ≤ l.max_entries)))
        ⊎ ((ensure_capacity l now needed ≡ (cleanup_expired l now, true))
            × (length (cleanup_expired l now).entries + needed ≤ l.max_entries))
        ⊎ ((ensure_capacity l now needed ≡ (cleanup_expired l now, false))
            × (l.max_entries < length (cleanup_expired l now).entries + needed))
  unfolding ensure_capacity cleanup_expired
  ensure_capacity_cases needed = ground arith

  -- A sweep or none: the entries that count stay.
  pub ensure_capacity-live :
      (needed : ℕ) (k : String)
      → Distinct l.entries
      → live (ensure_capacity l now needed).0 now k ≡ live l now k
  ensure_capacity-live needed k d = elim (ensure_capacity_cases needed) [
    | inl (e, _) ↦ rw e
    | inr (inl (e, _)) ↦ rw e (live-cleanup_expired k d)
    | inr (inr (e, _)) ↦ rw e (live-cleanup_expired k d)
  ]

  pub ensure_capacity-IsValid : (needed : ℕ) → IsValid l → IsValid (ensure_capacity l now needed).0
  ensure_capacity-IsValid needed v = elim (ensure_capacity_cases needed) [
    | inl (e, _) ↦ rw e v
    | inr (inl (e, _)) ↦ rw e (cleanup_expired-IsValid v)
    | inr (inr (e, _)) ↦ rw e (cleanup_expired-IsValid v)
  ]

abbrev counted : Limiter → Limiter
counted l = record l { calls = (l.calls + 1) % 2 ^ 64 }

counted-IsValid : (l : Limiter) → IsValid l → IsValid (counted l)
counted-IsValid l v = record { distinct = v.distinct; bounded = v.bounded }

module _ (l : Limiter) (now : ℕ) where
  after_consume_cases :
      (after_consume l now ≡ counted l) ⊎ (after_consume l now ≡ cleanup_expired (counted l) now)
  unfolding after_consume
  after_consume_cases = ground arith

  pub after_consume-live :
      (k : String) → Distinct l.entries → live (after_consume l now) now k ≡ live l now k
  after_consume-live k d = elim after_consume_cases [
    | inl e ↦ rw e
    | inr e ↦ rw e (live-cleanup_expired (counted l) now k d)
  ]

  pub after_consume-IsValid : IsValid l → IsValid (after_consume l now)
  after_consume-IsValid v = elim after_consume_cases [
    | inl e ↦ rw e (counted-IsValid l v)
    | inr e ↦ rw e (cleanup_expired-IsValid (counted l) now (counted-IsValid l v))
  ]

  pub current_entry-live :
      (key k : String) (window : ℕ) → live (current_entry l key now window).0 now k ≡ live l now k
  unfolding current_entry
  current_entry-live key k window = ground (arith, lookup-delete key k l.entries, ==_iff key k)

  current_entry_cases :
      (key : String) (window : ℕ)
      → ((current_entry l key now window).0 ≡ l)
        ⊎ ((current_entry l key now window).0 ≡ record l { entries = delete key l.entries })
  unfolding current_entry
  current_entry_cases key window = ground arith

  pub current_entry-IsValid :
      (key : String) (window : ℕ) → IsValid l → IsValid (current_entry l key now window).0
  current_entry-IsValid key window v = elim (current_entry_cases key window) [
    | inl e ↦ rw e v
    | inr e ↦ rw e (record {
      distinct = Distinct-delete key l.entries v.distinct;
      bounded = omega (arith, length-delete-le key l.entries, v.bounded);
    })
  ]

  -- The entry is the one to charge, and `exists` says whether the table still holds it.
  pub current_entry-budget :
      (key : String) (window : ℕ)
      → ((current_entry l key now window).1 ≡ budget l now window key)
        × ((current_entry l key now window).2 ≡ is_live l now key)
  unfolding current_entry
  current_entry-budget key window = ground arith

  -- The entry to charge is gone from the table if `exists` is false.
  pub max_entries-current_entry :
      (key : String) (window : ℕ) → (current_entry l key now window).0.max_entries ≡ l.max_entries
  unfolding current_entry
  max_entries-current_entry key window = ground arith

  pub charge-live :
      (key k : String) (e : Entry)
      → live (charge l key e) now k ≡ (
          if key == k
          then keep_unless (expired now) (some (record e { count = e.count + 1 }))
          else live l now k)
  charge-live key k e =
      ground (arith, lookup-insert key k (record e { count = e.count + 1 }) l.entries)

  pub charge-IsValid :
      (key : String) (e : Entry)
      → IsValid l
      → (has key l.entries ≡ true) ⊎ (length l.entries + 1 ≤ l.max_entries)
      → IsValid (charge l key e)
  charge-IsValid key e v room = record {
    distinct = Distinct-insert key (record e { count = e.count + 1 }) l.entries v.distinct;
    bounded =
        ground (arith, v.bounded, length-insert key (record e { count = e.count + 1 }) l.entries);
  }

  pub has-current_entry :
      (key : String) (window : ℕ)
      → (current_entry l key now window).2 ≡ true
      → has key (current_entry l key now window).0.entries ≡ true
  unfolding current_entry has
  has-current_entry key window h = ground arith

  pub size-cleanup-current :
      (key : String) (window : ℕ)
      → length (cleanup_expired (current_entry l key now window).0 now).entries
        ≤ length (cleanup_expired l now).entries
  unfolding cleanup_expired
  size-cleanup-current key window = elim (current_entry_cases key window) [
    | inl e ↦ rw e (omega arith)
    | inr e ↦ rw e (length-delete_if-delete-le key (expired now) l.entries)
  ]
