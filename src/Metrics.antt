-- ===== src/Metrics.antt =====
-- internal/metrics/metrics.go: the counters of a labelled family. The counter objects are in a heap,
-- by their pointers; the help text and the label's key, which nothing reads here, are left out.
pub mod Runs
mod Tests
use network_ultra_server.Prelude.{
  ℕ, ◌+◌, ◌-◌, ◌%◌, ◌^◌, String, List, [], Option, none, some, ◌==◌, if◌then◌else◌, string_eq,
  nat_eq,
}
use network_ultra_server.Prelude.Maps.{Map, lookup, insert}

-- labeledFamily.
pub record Family : Type 0 where
  pub counters : Map String ℕ
  pub heap : Map ℕ ℕ
  pub next : ℕ

abbrev pub new_family : Family
new_family = record { counters = []; heap = []; next = 0 }

-- What is done under the read lock: the counter's pointer, if there is one.
unfoldable pub find_counter : Family → String → Option ℕ
find_counter f label = lookup label f.counters

-- What is done under the write lock: the map is asked again before a counter is created.
unfoldable pub get_or_create : Family → String → Family × ℕ
get_or_create f label = elim (lookup label f.counters) [
  | some p ↦ (f, p)
  | none ↦ (
    record {
      counters = insert label f.next f.counters;
      heap = insert f.next 0 f.heap;
      next = f.next + 1;
    },
    f.next,
  )
]

-- c.Inc(), an atomic addition to a uint64.
unfoldable pub add_one : Family → ℕ → Family
add_one f p = elim (lookup p f.heap) [
  | none ↦ f
  | some v ↦ record f { heap = insert p ((v + 1) % (2 ^ 64)) f.heap }
]

-- c.Value() of a label's counter.
unfoldable pub counter_value : Family → String → Option ℕ
counter_value f label = elim (lookup label f.counters) [ none ↦ none | some p ↦ lookup p f.heap ]
