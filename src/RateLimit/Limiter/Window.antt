-- ===== src/RateLimit/Limiter/Window.antt =====
-- Sequences of requests within one window.
use Prim.Native.Nat.{min}
use mathlib.Core.Bool.{false≢true}
use network_ultra_server.Prelude.{
  ℕ, ◌+◌, ◌≤◌, ◌<◌, ◌≡◌, String, Bool, true, false, ◌&&◌, List, [], ◌∷◌, some, arith, ◌==◌, ==_iff,
  ltb, if◌then◌else◌, string_eq,
}
use network_ultra_server.Prelude.Maps.{lookup}
use network_ultra_server.RateLimit.Limiter.{Entry, Limiter, normalize_key, allow}
use network_ultra_server.RateLimit.Limiter.Live.{is_live, IsValid}
use network_ultra_server.RateLimit.Limiter.Allow.{Charges, allow-Charges, allow-IsValid}

module _ (limit window : ℕ) where
  -- How many of the requests, each a time and a key, are for `key`, and how many of those are let
  -- through, one request after the other.
  unfoldable pub asked : String → List (ℕ × String) → ℕ
  asked key [] = 0
  asked key ((t, raw) ∷ rs) = (if normalize_key raw == key then 1 else 0) + asked key rs

  unfoldable pub accepted : Limiter → String → List (ℕ × String) → ℕ
  accepted l key [] = 0
  accepted l key ((t, raw) ∷ rs) =
      (if (allow l t raw limit window).1 && normalize_key raw == key then 1 else 0)
      + accepted (allow l t raw limit window).0 key rs

  abbrev pub Before : ℕ → List (ℕ × String) → Type 0
  Before until [] = Unit
  Before until ((t, raw) ∷ rs) = (t < until) × Before until rs

  module _ (pos : 0 < limit) (span : 0 < window) where
    module _ (l : Limiter) (t : ℕ) (raw key : String) (e : Entry)
        (held : lookup key l.entries ≡ some e) (open_window : t < e.reset_at) where
      abbrev granted : Bool
      granted = normalize_key raw == key && ltb e.count limit

      abbrev next_entry : Entry
      next_entry = record e { count = if granted then e.count + 1 else e.count }

      step_cases :
          (r : Limiter × Bool)
          → Charges l t raw limit window r
          → ((r.1 && normalize_key raw == key) ≡ granted)
            × (lookup key r.0.entries ≡ some next_entry)
      step_cases (l', true) (below, same) = ground (arith, same key, ==_iff (normalize_key raw) key)
      step_cases (l', false) (same, why) = ground (arith, same key, ==_iff (normalize_key raw) key)

    -- For a positive limit and window: while a key's window is open, as many of the requests for
    -- it are let through as its budget still has, whatever is asked for other keys.
    pub accepted_exact :
        (l : Limiter) (key : String) (e : Entry) (rs : List (ℕ × String))
        → IsValid l
        → lookup key l.entries ≡ some e
        → e.count ≤ limit
        → Before e.reset_at rs
        → e.count + accepted l key rs ≡ min limit (e.count + asked key rs)
    unfolding accepted asked
    accepted_exact l key e [] v held room before = omega arith
    accepted_exact l key e ((t, raw) ∷ rs) v held room before =
        let (verdict, kept) =
          step_cases l t raw key e held before.0 (allow l t raw limit window)
            (allow-Charges l t raw limit window pos span v) in
        let ih =
          accepted_exact (allow l t raw limit window).0 key (next_entry l t raw key e held before.0)
            rs (allow-IsValid l t raw limit window pos span v) kept (ground arith) before.1 in
        rw verdict (ground (arith, ih))

    opened :
        (l : Limiter) (t : ℕ) (raw : String) (r : Limiter × Bool)
        → is_live l t (normalize_key raw) ≡ false
        → Charges l t raw limit window r
        → r.1 ≡ true
        → lookup (normalize_key raw) r.0.entries
          ≡ some (record { reset_at = t + window; count = 1 })
    opened l t raw (l', true) new (below, same) ok =
        ground (arith, same (normalize_key raw), ==_iff (normalize_key raw) (normalize_key raw))
    opened l t raw (l', false) new c ok = absurd (false≢true ok)

    -- For a positive limit and window: of the request that opens a key's window and the requests
    -- for that key before the window's end, exactly as many are let through as the limit allows,
    -- whatever is asked for other keys.
    pub window_exact :
        (l : Limiter) (t : ℕ) (raw : String) (rs : List (ℕ × String))
        → IsValid l
        → is_live l t (normalize_key raw) ≡ false
        → (allow l t raw limit window).1 ≡ true
        → Before (t + window) rs
        → 1 + accepted (allow l t raw limit window).0 (normalize_key raw) rs
          ≡ min limit (1 + asked (normalize_key raw) rs)
    window_exact l t raw rs v new ok before =
        accepted_exact (allow l t raw limit window).0 (normalize_key raw)
          (record { reset_at = t + window; count = 1 }) rs
          (allow-IsValid l t raw limit window pos span v)
          (opened l t raw (allow l t raw limit window) new
            (allow-Charges l t raw limit window pos span v) ok)
          pos before
