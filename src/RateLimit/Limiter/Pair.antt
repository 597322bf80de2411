-- ===== src/RateLimit/Limiter/Pair.antt =====
-- `AllowPair`, seen by the entries that count.
use network_ultra_server.Prelude.{
  ℕ, ◌+◌, ◌≤◌, ◌<◌, ◌≡◌, subst, ◌∙◌, sym, String, Bool, true, false, some, arith, ◌==◌, ==_iff,
  if◌then◌else◌, length, ◌⊎◌, inl, inr, string_eq,
}
use network_ultra_server.Prelude.Maps.{has, length-insert, Distinct-insert}
use network_ultra_server.RateLimit.Limiter.{
  Entry, Limiter, normalize_key, current_entry, cleanup_expired, ensure_capacity, after_consume,
  charge, admit_new, allow_same, allow_pair, needed,
}
use network_ultra_server.RateLimit.Limiter.Live.{
  live, budget, is_live, IsValid, ensure_capacity_cases, ensure_capacity-live,
  ensure_capacity-IsValid, after_consume-live, after_consume-IsValid, current_entry-live,
  current_entry-IsValid, current_entry-budget, max_entries-current_entry, charge-live,
  charge-IsValid, has-current_entry, size-cleanup-current, cleanup_expired-IsValid,
}
use network_ultra_server.RateLimit.Limiter.Allow.{
  admit_new_cases, budget_unexpired, max_entries-cleanup_expired,
}

abbrev more : Entry → Entry
more e = record e { count = e.count + 1 }

module _ (l : Limiter) (now : ℕ) where
  has_of_live : (k : String) → is_live l now k ≡ true → has k l.entries ≡ true
  unfolding has
  has_of_live k h = ground arith

  length-charge :
      (k : String) (e : Entry)
      → length (charge l k e).entries ≤ length l.entries + (if is_live l now k then 0 else 1)
  length-charge k e = ground (arith, length-insert k (more e) l.entries, has_of_live k)

module _ (l : Limiter) (now : ℕ) (raw_first raw_second : String) (limit window : ℕ) where
  abbrev first : String
  first = normalize_key raw_first

  abbrev second : String
  second = normalize_key raw_second

  abbrev a : Entry
  a = budget l now window first

  abbrev b : Entry
  b = budget l now window second

  -- How many entries a call has to add: one for each of its keys, counted once, without an entry
  -- that counts.
  abbrev missing : ℕ
  missing =
      (if is_live l now first then 0 else 1)
      + (if first == second then 0 else if is_live l now second then 0 else 1)

  -- What a call of `AllowPair` did, seen by the entries that count at its time.
  abbrev pub ChargesBoth : Limiter × Bool → Type 0
  ChargesBoth (l', true) =
      (a.count < limit)
      × (b.count < limit)
      × ((k : String)
          → live l' now k ≡ (
              if second == k
              then some (more b)
              else if first == k
              then some (more a)
              else live l now k))
  ChargesBoth (l', false) =
      ((k : String) → live l' now k ≡ live l now k)
      × ((limit ≤ a.count)
          ⊎ (limit ≤ b.count)
          ⊎ ((0 < missing) × (l.max_entries < length (cleanup_expired l now).entries + missing)))

  abbrev l1 : Limiter
  l1 = (current_entry l first now window).0

  abbrev l2 : Limiter
  l2 = (current_entry l1 second now window).0

  abbrev n : ℕ
  n = needed (is_live l now first) (is_live l now second)

  abbrev l3 : Limiter
  l3 = (ensure_capacity l2 now n).0

  abbrev same_room : Limiter × Bool
  same_room = admit_new (is_live l now first) l1 now

  live-l1 : (k : String) → live l1 now k ≡ live l now k
  live-l1 k = current_entry-live l now first k window

  live-l2 : (k : String) → live l2 now k ≡ live l now k
  live-l2 k = current_entry-live l1 now second k window ∙ live-l1 k

  second-budget :
      ((current_entry l1 second now window).1 ≡ b)
      × ((current_entry l1 second now window).2 ≡ is_live l now second)
  second-budget = ground (arith, current_entry-budget l1 now second window, live-l1 second)

  allow_pair_cases :
      0 < limit
      → (((first == second) ≡ true)
          × (((allow_pair l now raw_first raw_second limit window ≡ (l1, false))
                × (limit ≤ a.count))
              ⊎ ((allow_pair l now raw_first raw_second limit window ≡ (same_room.0, false))
                  × (same_room.1 ≡ false))
              ⊎ ((allow_pair l now raw_first raw_second limit window
                    ≡ (after_consume (charge same_room.0 first a) now, true))
                  × (same_room.1 ≡ true)
                  × (a.count < limit))))
        ⊎ (((first == second) ≡ false)
            × (((allow_pair l now raw_first raw_second limit window ≡ (l2, false))
                  × ((limit ≤ a.count) ⊎ (limit ≤ b.count)))
                ⊎ ((allow_pair l now raw_first raw_second limit window ≡ (l3, false))
                    × ((ensure_capacity l2 now n).1 ≡ false))
                ⊎ ((allow_pair l now raw_first raw_second limit window
                      ≡ (after_consume (charge (charge l3 first a) second b) now, true))
                    × ((ensure_capacity l2 now n).1 ≡ true)
                    × (a.count < limit)
                    × (b.count < limit))))
  unfolding allow_pair allow_same
  allow_pair_cases pos = ground (arith, current_entry-budget l now first window, second-budget)

  module _ (v : IsValid l) where
    v1 : IsValid l1
    v1 = current_entry-IsValid l now first window v

    v2 : IsValid l2
    v2 = current_entry-IsValid l1 now second window v1

    v3 : IsValid l3
    v3 = ensure_capacity-IsValid l2 now n v2

    live-l3 : (k : String) → live l3 now k ≡ live l now k
    live-l3 k = ensure_capacity-live l2 now n k v2.distinct ∙ live-l2 k

    size : length (cleanup_expired l2 now).entries ≤ length (cleanup_expired l now).entries
    size =
        omega (
          arith,
          size-cleanup-current l1 now second window,
          size-cleanup-current l now first window,
        )

    capacity : l2.max_entries ≡ l.max_entries
    capacity =
        max_entries-current_entry l1 now second window
        ∙ max_entries-current_entry l now first window

    -- Without room, the table is full of live entries.
    refused_full :
        (ensure_capacity l2 now n).1 ≡ false
        → (0 < n) × (l.max_entries < length (cleanup_expired l now).entries + n)
    refused_full h = elim (ensure_capacity_cases l2 now n) [
      | inl (e, _) ↦ absurd (ground (arith, e))
      | inr (inl (e, _)) ↦ absurd (ground (arith, e))
      | inr (inr (e, full)) ↦ ground (
        arith,
        size,
        capacity,
        full,
        (cleanup_expired-IsValid l2 now v2).bounded,
        max_entries-cleanup_expired l2 now,
      )
    ]

    at_result :
        {r : Limiter × Bool}
        → ensure_capacity l2 now n ≡ r
        → length r.0.entries + n ≤ r.0.max_entries
        → length l3.entries + n ≤ l3.max_entries
    at_result e h =
        subst (λ (r : Limiter × Bool). length r.0.entries + n ≤ r.0.max_entries) (sym e) h

    room_for_both : (ensure_capacity l2 now n).1 ≡ true → length l3.entries + n ≤ l3.max_entries
    room_for_both h = elim (ensure_capacity_cases l2 now n) [
      | inl (e, inl none_needed) ↦ omega (arith, v3.bounded)
      | inl (e, inr fits) ↦ at_result e fits
      | inr (inl (e, fits)) ↦ at_result e (omega (arith, max_entries-cleanup_expired l2 now))
      | inr (inr (e, full)) ↦ absurd (ground (arith, e))
    ]

    both-IsValid :
        (first == second) ≡ false
        → (ensure_capacity l2 now n).1 ≡ true
        → IsValid (charge (charge l3 first a) second b)
    both-IsValid differ h = record {
      distinct =
          Distinct-insert second (more b) (charge l3 first a).entries
            (Distinct-insert first (more a) l3.entries v3.distinct);
      bounded = ground (
        arith,
        length-charge l3 now first a,
        length-charge (charge l3 first a) now second b,
        charge-live l3 now first second a,
        live-l3 first,
        live-l3 second,
        room_for_both h,
      );
    }

    same_admitted :
        (first == second) ≡ true
        → IsValid same_room.0
          × ((k : String) → live same_room.0 now k ≡ live l now k)
          × (((same_room.1 ≡ true)
                × ((has first same_room.0.entries ≡ true)
                    ⊎ (length same_room.0.entries + 1 ≤ same_room.0.max_entries)))
              ⊎ ((same_room.1 ≡ false)
                  × (is_live l now first ≡ false)
                  × (l.max_entries ≤ length (cleanup_expired l now).entries)))
    same_admitted _ =
        let exists = (current_entry-budget l now first window).1 in
        let (ok, same, verdict) =
          admit_new_cases l1 now v1 (is_live l now first) first
            (λ h. has-current_entry l now first window (exists ∙ h)) in
        (
          ok,
          λ k. same k ∙ live-l1 k,
          elim verdict [
            | inl room ↦ inl room
            | inr (refused, absent, full) ↦ inr (
              refused,
              absent,
              omega (
                arith,
                full,
                max_entries-current_entry l now first window,
                size-cleanup-current l now first window,
              ),
            )
          ],
        )

    same-IsValid :
        (first == second) ≡ true → same_room.1 ≡ true → IsValid (charge same_room.0 first a)
    same-IsValid eq room =
        let (ok, _, verdict) = same_admitted eq in
        charge-IsValid same_room.0 now first a ok (ground (arith, verdict))

    same_keys : (first == second) ≡ true → first ≡ second
    same_keys eq = (==_iff first second).0 eq

    same_charged :
        (eq : (first == second) ≡ true) (k : String)
        → same_room.1 ≡ true
        → 0 < window
        → live (after_consume (charge same_room.0 first a) now) now k ≡ (
            if second == k
            then some (more b)
            else if first == k
            then some (more a)
            else live l now k)
    same_charged eq k room span =
        after_consume-live (charge same_room.0 first a) now k (same-IsValid eq room).distinct
        ∙ ground (
          arith,
          charge-live same_room.0 now first k a,
          (same_admitted eq).1 k,
          same_keys eq,
          budget_unexpired l now raw_first limit window span,
        )

    -- For a positive limit and window and a table that holds no key twice and keeps within its
    -- limit, AllowPair charges both budgets one unit, each of which had one left, or changes no
    -- budget; equal keys are one budget, charged once; and a refusal has as its reason a used-up
    -- budget, or that at least one of the keys has no entry that counts and the entries that count
    -- leave no room in the table for one entry for each such key, equal keys once.
    pub allow_pair-ChargesBoth :
        0 < limit → 0 < window → ChargesBoth (allow_pair l now raw_first raw_second limit window)
    allow_pair-ChargesBoth pos span = elim (allow_pair_cases pos) [
      | inl (eq, inl (e, used)) ↦ rw e (live-l1, inl used)
      | inl (eq, inr (inl (e, refused))) ↦
          let (_, same, verdict) = same_admitted eq in rw e (same, ground (arith, verdict))
      | inl (eq, inr (inr (e, room, below))) ↦
          rw e (below, ground (arith, same_keys eq), λ k. same_charged eq k room span)
      | inr (ne, inl (e, used)) ↦ rw e (live-l2, ground arith)
      | inr (ne, inr (inl (e, refused))) ↦
          rw e (live-l3, inr (inr (ground (arith, refused_full refused))))
      | inr (ne, inr (inr (e, room, below_a, below_b))) ↦ rw e (
        below_a,
        below_b,
        λ k.
            after_consume-live (charge (charge l3 first a) second b) now k
              (both-IsValid ne room).distinct
            ∙ ground (
              arith,
              charge-live (charge l3 first a) now second k b,
              charge-live l3 now first k a,
              live-l3 k,
              budget_unexpired l now raw_first limit window span,
              budget_unexpired l now raw_second limit window span,
            ),
      )
    ]

    -- For a positive limit, AllowPair keeps the table valid: no key is stored twice, and the table
    -- does not outgrow its limit.
    pub allow_pair-IsValid :
        0 < limit → IsValid (allow_pair l now raw_first raw_second limit window).0
    allow_pair-IsValid pos = elim (allow_pair_cases pos) [
      | inl (eq, inl (e, _)) ↦ rw e v1
      | inl (eq, inr (inl (e, _))) ↦ rw e (same_admitted eq).0
      | inl (eq, inr (inr (e, room, _))) ↦ rw e (after_consume-IsValid _ now (same-IsValid eq room))
      | inr (ne, inl (e, _)) ↦ rw e v2
      | inr (ne, inr (inl (e, _))) ↦ rw e v3
      | inr (ne, inr (inr (e, room, _, _))) ↦
          rw e (after_consume-IsValid _ now (both-IsValid ne room))
    ]
