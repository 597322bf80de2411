-- ===== src/RateLimit/Tests.antt =====
-- The limiter of internal/ratelimit at concrete requests.
use Prim.Native.Nat.{min}
use network_ultra_server.Prelude.{
  ℕ, ◌+◌, ◌≡◌, refl, String, true, false, List, [], ◌∷◌, arith, string_eq,
}
use network_ultra_server.Prelude.Maps.{lookup, delete_if}
use network_ultra_server.RateLimit.Limiter.{
  Limiter, new, allow, allow_pair, normalize_key, current_entry, cleanup_expired, ensure_capacity,
  admit_new,
}
use network_ultra_server.RateLimit.Limiter.Live.{is_live, IsValid}
use network_ultra_server.RateLimit.Limiter.Pair.{ChargesBoth, allow_pair-ChargesBoth}
use network_ultra_server.RateLimit.Limiter.Window.{asked, accepted, window_exact}

-- A full table of two, one key of which has used its budget up and one of which has expired.
abbrev busy : Limiter
busy = record {
  entries =
      ("ip:1", record { reset_at = 100; count = 2 })
      ∷ ("ip:2", record { reset_at = 40; count = 1 })
      ∷ [];
  calls = 7;
  max_entries = 2;
}

busy-IsValid : IsValid busy
unfolding lookup
busy-IsValid = record { distinct = (refl, (refl, tt)); bounded = omega arith }

new-IsValid : IsValid new
new-IsValid = record { distinct = tt; bounded = omega arith }

abbrev traffic : List (ℕ × String)
traffic = (51, "ip:3") ∷ (52, "ip:1") ∷ (53, "ip:3") ∷ (54, "ip:3") ∷ []

allow_pair-ChargesBoth_example :
    ChargesBoth busy 50 "ip:1" "ip:3" 3 60 (allow_pair busy 50 "ip:1" "ip:3" 3 60)
allow_pair-ChargesBoth_example =
    allow_pair-ChargesBoth busy 50 "ip:1" "ip:3" 3 60 busy-IsValid (omega arith) (omega arith)

fresh_window : is_live busy 50 (normalize_key "ip:3") ≡ false
unfolding normalize_key lookup
fresh_window = refl

opened : (allow busy 50 "ip:3" 2 60).1 ≡ true
unfolding allow normalize_key lookup current_entry admit_new ensure_capacity cleanup_expired
    delete_if
opened = refl

window_exact_example :
    1 + accepted 2 60 (allow busy 50 "ip:3" 2 60).0 (normalize_key "ip:3") traffic
    ≡ min 2 (1 + asked 2 60 (normalize_key "ip:3") traffic)
window_exact_example =
    window_exact 2 60 (omega arith) (omega arith) busy 50 "ip:3" traffic busy-IsValid fresh_window
      opened (ground arith)
