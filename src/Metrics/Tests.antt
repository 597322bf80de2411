-- ===== src/Metrics/Tests.antt =====
-- internal/metrics/metrics.go: two calls that both find no counter and both ask for one.
use network_ultra_server.Prelude.{◌%◌, ◌^◌, ◌≡◌, refl, ◌⊎◌, none, some, string_eq, nat_eq}
use network_ultra_server.Prelude.Maps.{lookup, insert, delete}
use network_ultra_server.Metrics.{find_counter, get_or_create, add_one, counter_value}
use network_ultra_server.Metrics.Runs.{
  Calls, Step, Reach, quiet, started, looked, created, finished, value_exact,
}

abbrev both_called : Calls
both_called = started (started quiet 1 "muted") 2 "muted"

abbrev both_missed : Calls
both_missed = looked (looked both_called 1 "muted") 2 "muted"

abbrev both_hold : Calls
both_hold = created (created both_missed 1 "muted") 2 "muted"

abbrev both_ended : Calls
both_ended = finished (finished both_hold 1 "muted" 0) 2 "muted" 0

two_calls : Reach quiet both_ended
unfolding lookup insert delete find_counter get_or_create add_one
two_calls =
    Reach.next
      (Reach.next
        (Reach.next
          (Reach.next
            (Reach.next
              (Reach.next
                (Reach.next (Reach.next Reach.start (Step.calls 1 "muted" refl))
                  (Step.calls 2 "muted" refl))
                (Step.looks 1 "muted" refl))
              (Step.looks 2 "muted" refl))
            (Step.creates 1 "muted" refl))
          (Step.creates 2 "muted" refl))
        (Step.adds 1 "muted" 0 refl))
      (Step.adds 2 "muted" 0 refl)

counted_twice : counter_value both_ended.family "muted" ≡ some 2
unfolding lookup insert delete find_counter get_or_create add_one counter_value
counted_twice = refl

value_exact_example :
    ((counter_value both_ended.family "muted" ≡ none) × (both_ended.ended "muted" ≡ 0))
    ⊎ (counter_value both_ended.family "muted" ≡ some (both_ended.ended "muted" % 2 ^ 64))
value_exact_example = value_exact both_ended two_calls "muted"
