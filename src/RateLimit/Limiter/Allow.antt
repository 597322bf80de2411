-- ===== src/RateLimit/Limiter/Allow.antt =====
-- `Allow`, seen by the entries that count.
use network_ultra_server.Prelude.{
  ℕ, ◌+◌, ◌≤◌, ◌<◌, ◌≡◌, refl, ◌∙◌, String, Bool, true, false, some, arith, ◌==◌, if◌then◌else◌,
  length, ◌⊎◌, inl, inr, string_eq, ltb,
}
use network_ultra_server.Prelude.Maps.{has}
use network_ultra_server.RateLimit.Limiter.{
  Limiter, normalize_key, current_entry, cleanup_expired, after_consume, charge, admit_new, allow,
}
use network_ultra_server.RateLimit.Limiter.Live.{
  live, budget, is_live, IsValid, ensure_capacity_cases, ensure_capacity-live,
  ensure_capacity-IsValid, after_consume-live, after_consume-IsValid, current_entry-live,
  current_entry-IsValid, current_entry-budget, max_entries-current_entry, charge-live,
  charge-IsValid, has-current_entry, size-cleanup-current,
}

pub max_entries-cleanup_expired :
    (l : Limiter) (now : ℕ) → (cleanup_expired l now).max_entries ≡ l.max_entries
unfolding cleanup_expired
max_entries-cleanup_expired l now = refl

module _ (l : Limiter) (now : ℕ) (v : IsValid l) where
  -- A new key finds room, by a sweep if need be, or is refused at a table full of live entries.
  pub admit_new_cases :
      (exists : Bool) (key : String)
      → (exists ≡ true → has key l.entries ≡ true)
      → IsValid (admit_new exists l now).0
        × ((k : String) → live (admit_new exists l now).0 now k ≡ live l now k)
        × (((admit_new exists l now).1 ≡ true)
              × ((has key (admit_new exists l now).0.entries ≡ true)
                  ⊎ (length (admit_new exists l now).0.entries + 1
                      ≤ (admit_new exists l now).0.max_entries))
            ⊎ ((admit_new exists l now).1 ≡ false)
              × (exists ≡ false)
              × (l.max_entries ≤ length (cleanup_expired l now).entries))
  unfolding admit_new
  admit_new_cases true key h = (v, λ k. refl, inl (refl, inl (h refl)))
  admit_new_cases false key h = (
    ensure_capacity-IsValid l now 1 v,
    λ k. ensure_capacity-live l now 1 k v.distinct,
    elim (ensure_capacity_cases l now 1) [
      | inl (e, room) ↦ rw e (inl (refl, inr (omega arith)))
      | inr (inl (e, room)) ↦
          rw e (inl (refl, inr (omega (arith, max_entries-cleanup_expired l now))))
      | inr (inr (e, full)) ↦ rw e (inr (refl, refl, omega arith))
    ],
  )

module _ (l : Limiter) (now : ℕ) (raw : String) (limit window : ℕ) where
  abbrev key : String
  key = normalize_key raw

  -- What a call of `Allow` did, seen by the entries that count at its time.
  abbrev pub Charges : Limiter × Bool → Type 0
  Charges (l', true) =
      ((budget l now window key).count < limit)
      × ((k : String)
          → live l' now k ≡ (
              if key == k
              then some
                  (record (budget l now window key) { count = (budget l now window key).count + 1 })
              else live l now k))
  Charges (l', false) =
      ((k : String) → live l' now k ≡ live l now k)
      × ((limit ≤ (budget l now window key).count)
          ⊎ ((is_live l now key ≡ false)
              × (l.max_entries ≤ length (cleanup_expired l now).entries)))

  abbrev entered : Limiter
  entered = (admit_new (current_entry l key now window).2 (current_entry l key now window).0 now).0

  abbrev fits : Bool
  fits = (admit_new (current_entry l key now window).2 (current_entry l key now window).0 now).1

  allow_cases :
      0 < limit
      → ((allow l now raw limit window
            ≡ (after_consume (charge entered key (budget l now window key)) now, true))
          × (fits ≡ true)
          × ((budget l now window key).count < limit))
        ⊎ ((allow l now raw limit window ≡ (entered, false))
            × ((fits ≡ false) ⊎ (limit ≤ (budget l now window key).count)))
  unfolding allow
  allow_cases pos = ground (arith, current_entry-budget l now key window)

  pub budget_unexpired : 0 < window → ltb now (budget l now window key).reset_at ≡ true
  budget_unexpired pos = ground arith

  module _ (pos : 0 < limit) (span : 0 < window) (v : IsValid l) where
    admitted :
        IsValid entered
        × ((k : String) → live entered now k ≡ live l now k)
        × (((fits ≡ true)
              × ((has key entered.entries ≡ true)
                  ⊎ (length entered.entries + 1 ≤ entered.max_entries)))
            ⊎ ((fits ≡ false)
                × (is_live l now key ≡ false)
                × (l.max_entries ≤ length (cleanup_expired l now).entries)))
    admitted =
        let (l1, e, exists) = current_entry l key now window in
        let v1 = current_entry-IsValid l now key window v in
        let (v2, same, verdict) =
          admit_new_cases (current_entry l key now window).0 now v1
            (current_entry l key now window).2 key (has-current_entry l now key window) in
        (
          v2,
          λ k. same k ∙ current_entry-live l now key k window,
          elim verdict [
            | inl room ↦ inl room
            | inr (refused, absent, full) ↦ inr (
              refused,
              ground (arith, current_entry-budget l now key window),
              omega (
                arith,
                full,
                max_entries-current_entry l now key window,
                size-cleanup-current l now key window,
              ),
            )
          ],
        )

    charged-IsValid : fits ≡ true → IsValid (charge entered key (budget l now window key))
    charged-IsValid room =
        let (v2, _, verdict) = admitted in
        charge-IsValid entered now key (budget l now window key) v2 (ground (arith, verdict))

    -- For a positive limit and window, a request that is let through had a unit left in its own
    -- budget, charges it one and changes no other key's; one that is refused changes no budget,
    -- and its own is used up or it is new at a table full of live entries.
    pub allow-Charges : Charges (allow l now raw limit window)
    allow-Charges =
        let (v2, same, verdict) = admitted in
        elim (allow_cases pos) [
          | inl (e, room, below) ↦ rw e (
            below,
            λ k.
                after_consume-live (charge entered key (budget l now window key)) now k
                  (charged-IsValid room).distinct
                ∙ ground (
                  arith,
                  charge-live entered now key k (budget l now window key),
                  same k,
                  budget_unexpired span,
                ),
          )
          | inr (e, why) ↦ rw e (same, ground (arith, verdict))
        ]

    -- For a positive limit and window, Allow keeps the table valid: no key is stored twice, and
    -- the table does not outgrow its limit.
    pub allow-IsValid : IsValid (allow l now raw limit window).0
    allow-IsValid = elim (allow_cases pos) [
      | inl (e, room, _) ↦ rw e (after_consume-IsValid _ now (charged-IsValid room))
      | inr (e, _) ↦ rw e admitted.0
    ]
