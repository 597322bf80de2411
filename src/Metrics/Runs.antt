-- ===== src/Metrics/Runs.antt =====
-- internal/metrics/metrics.go: calls of labeledFamily.Inc that run side by side.
use network_ultra_server.Prelude.{
  ℕ, ◌+◌, ◌%◌, ◌^◌, ◌≡◌, ◌<◌, refl, subst, sym, ap, ◌∙◌, ◌⊎◌, inl, inr, String, [], Option, none,
  some, ◌==◌, ==_iff, if◌then◌else◌, arith, string_eq, nat_eq, Bool-cases, Option-cases,
}
use network_ultra_server.Prelude.Maps.{
  Map, lookup, insert, delete, lookup-insert, lookup-insert_self, lookup-delete,
}
use network_ultra_server.Metrics.{
  Family, new_family, find_counter, get_or_create, add_one, counter_value,
}

-- Where a call is: behind the read lock with nothing found, or with its counter in hand.
pub data Phase : Type 0 where
  called missed : Phase
  holds : ℕ → Phase

-- The family, the calls that run, by their goroutines, and how many have ended for each label.
pub record Calls : Type 0 where
  pub family : Family
  pub running : Map ℕ (String × Phase)
  pub ended : String → ℕ

abbrev pub phase_of : Option ℕ → Phase
phase_of none = Phase.missed
phase_of (some p) = Phase.holds p

abbrev pub started : Calls → ℕ → String → Calls
started s g label = record s { running = insert g (label, Phase.called) s.running }

abbrev pub looked : Calls → ℕ → String → Calls
looked s g label = record s {
  running = insert g (label, phase_of (find_counter s.family label)) s.running;
}

abbrev pub created : Calls → ℕ → String → Calls
created s g label =
    let (family, p) = get_or_create s.family label in
    record s { family = family; running = insert g (label, Phase.holds p) s.running }

abbrev pub finished : Calls → ℕ → String → ℕ → Calls
finished s g label p = record s {
  family = add_one s.family p;
  running = delete g s.running;
  ended = λ l. if label == l then s.ended l + 1 else s.ended l;
}

pub data Step (s : Calls) : Calls → Type 0 where
  calls : (g : ℕ) (label : String) → lookup g s.running ≡ none → Step s (started s g label)
  looks :
      (g : ℕ) (label : String)
      → lookup g s.running ≡ some (label, Phase.called)
      → Step s (looked s g label)
  creates :
      (g : ℕ) (label : String)
      → lookup g s.running ≡ some (label, Phase.missed)
      → Step s (created s g label)
  adds :
      (g : ℕ) (label : String) (p : ℕ)
      → lookup g s.running ≡ some (label, Phase.holds p)
      → Step s (finished s g label p)

pub data Reach (s : Calls) : Calls → Type 0 where
  start : Reach s s
  next : {t u : Calls} → Reach s t → Step t u → Reach s u

abbrev pub quiet : Calls
quiet = record { family = new_family; running = []; ended = λ l. 0 }

pub record IsExact (s : Calls) : Type 0 where
  pub below : (l : String) (p : ℕ) → lookup l s.family.counters ≡ some p → p < s.family.next
  pub apart :
      (l m : String) (p : ℕ)
      → lookup l s.family.counters ≡ some p
      → lookup m s.family.counters ≡ some p
      → l ≡ m
  pub counted :
      (l : String) (p : ℕ)
      → lookup l s.family.counters ≡ some p
      → lookup p s.family.heap ≡ some (s.ended l % (2 ^ 64))
  pub absent : (l : String) → lookup l s.family.counters ≡ none → s.ended l ≡ 0
  pub held :
      (g : ℕ) (l : String) (p : ℕ)
      → lookup g s.running ≡ some (l, Phase.holds p)
      → lookup l s.family.counters ≡ some p

start-IsExact : IsExact quiet
unfolding lookup
start-IsExact = record {
  below = λ l p h. absurd (ground arith);
  apart = λ l m p h k. absurd (ground arith);
  counted = λ l p h. absurd (ground arith);
  absent = λ l h. refl;
  held = λ g l p h. absurd (ground arith);
}

label_of : Option (String × Phase) → String
label_of none = ""
label_of (some (l, _)) = l

phase_in : Option (String × Phase) → Phase
phase_in none = Phase.called
phase_in (some (_, phase)) = phase

module _ (s : Calls) (ok : IsExact s) (g : ℕ) (label : String) where
  inserted_phase :
      (j : ℕ) (l : String) (p : ℕ) (phase : Phase)
      → lookup j (insert g (label, phase) s.running) ≡ some (l, Phase.holds p)
      → ((label ≡ l) × (phase ≡ Phase.holds p)) ⊎ (lookup j s.running ≡ some (l, Phase.holds p))
  unfolding label_of phase_in
  inserted_phase j l p phase h = elim (Bool-cases (g == j)) [
    | inl y ↦
        let e : some (label, phase) ≡ some (l, Phase.holds p) =
          ground (arith, lookup-insert g j (label, phase) s.running) in
        inl (ap label_of e, ap phase_in e)
    | inr n ↦ inr (ground (arith, lookup-insert g j (label, phase) s.running))
  ]

  -- A call that only changes its own phase.
  phase-IsExact :
      (phase : Phase)
      → ((p : ℕ) → phase ≡ Phase.holds p → lookup label s.family.counters ≡ some p)
      → IsExact (record s { running = insert g (label, phase) s.running })
  phase-IsExact phase fits = record {
    below = ok.below;
    apart = ok.apart;
    counted = ok.counted;
    absent = ok.absent;
    held = λ j l p h. elim (inserted_phase j l p phase h) [
      | inl (same, e) ↦ subst (λ x. lookup x s.family.counters ≡ some p) same (fits p e)
      | inr before ↦ ok.held j l p before
    ];
  }

  create-IsExact : IsExact (created s g label)
  unfolding get_or_create
  create-IsExact = elim (Option-cases (lookup label s.family.counters)) [
    | inr (p, at) ↦ rw (at, get_or_create) (phase-IsExact (Phase.holds p) (λ q e. ground arith))
    | inl missing ↦
        rw (missing, get_or_create)
          (record {
            below = λ l p h.
                ground (arith, lookup-insert label l s.family.next s.family.counters, ok.below l p);
            apart = λ l m p h k. ground (
              arith,
              lookup-insert label l s.family.next s.family.counters,
              lookup-insert label m s.family.next s.family.counters,
              ==_iff label l,
              ==_iff label m,
              ok.apart l m p,
              ok.below l p,
              ok.below m p,
            );
            counted = λ l p h. ground (
              arith,
              lookup-insert label l s.family.next s.family.counters,
              lookup-insert s.family.next p 0 s.family.heap,
              ==_iff label l,
              ==_iff s.family.next p,
              ok.counted l p,
              ok.below l p,
              ok.absent label missing,
            );
            absent = λ l h.
                ground (arith, lookup-insert label l s.family.next s.family.counters, ok.absent l);
            held = λ j l p h. elim (inserted_phase j l p (Phase.holds s.family.next) h) [
              | inl (same, e) ↦
                  subst (λ x. lookup x (insert label s.family.next s.family.counters) ≡ some p) same
                    (ground (arith, lookup-insert_self label s.family.next s.family.counters, e))
              | inr before ↦ ground (
                arith,
                lookup-insert label l s.family.next s.family.counters,
                ok.held j l p before,
                ==_iff label l,
              )
            ];
          })
  ]

  finish-IsExact :
      (p : ℕ) → lookup g s.running ≡ some (label, Phase.holds p) → IsExact (finished s g label p)
  unfolding add_one
  finish-IsExact p at =
      let mapped = ok.held g label p at in
      let at_heap = ok.counted label p mapped in
      rw (at_heap, add_one)
        (record {
          below = ok.below;
          apart = ok.apart;
          counted = λ l q h. elim (Bool-cases (label == l)) [
            | inl y ↦
                let e : label ≡ l = (==_iff label l).0 y in
                let same : p ≡ q =
                  ground (arith, mapped, h, ap (λ x. lookup x s.family.counters) e) in
                let sum : (s.ended label % 2 ^ 64 + 1) % 2 ^ 64 ≡ (s.ended l + 1) % 2 ^ 64 =
                  omega (arith, ap s.ended e) in
                ap (λ x. lookup x (insert p ((s.ended label % 2 ^ 64 + 1) % 2 ^ 64) s.family.heap))
                  (sym same)
                ∙ lookup-insert_self p ((s.ended label % 2 ^ 64 + 1) % 2 ^ 64) s.family.heap
                ∙ rw y (ap some sum)
            | inr n ↦ ground (
              arith,
              lookup-insert p q ((s.ended label % 2 ^ 64 + 1) % 2 ^ 64) s.family.heap,
              ==_iff p q,
              ok.apart label l p,
              ok.counted l q,
              mapped,
              ==_iff label l,
            )
          ];
          absent = λ l h. ground (arith, ok.absent l, mapped, ==_iff label l);
          held = λ j l q h. ok.held j l q (ground (arith, lookup-delete g j s.running));
        })

found_lem :
    (f : Family) (label : String) (p q : ℕ)
    → find_counter f label ≡ some p
    → Phase.holds p ≡ Phase.holds q
    → lookup label f.counters ≡ some q
unfolding find_counter
found_lem f label p q found e = ground arith

step-IsExact : (s t : Calls) → Step s t → IsExact s → IsExact t
step-IsExact s t (Step.calls g label free) ok =
    phase-IsExact s ok g label Phase.called (λ p e. absurd (ground arith))
step-IsExact s t (Step.looks g label at) ok = look_lem (Option-cases (find_counter s.family label))
  where
    look_lem :
        (find_counter s.family label ≡ none) ⊎ ((p : ℕ) × (find_counter s.family label ≡ some p))
        → IsExact (looked s g label)
    look_lem (inl missing) =
        rw missing (phase-IsExact s ok g label Phase.missed (λ p e. absurd (ground arith)))
    look_lem (inr (p, found)) =
        rw found
          (phase-IsExact s ok g label (Phase.holds p) (λ q e. found_lem s.family label p q found e))
step-IsExact s t (Step.creates g label at) ok = create-IsExact s ok g label
step-IsExact s t (Step.adds g label p at) ok = finish-IsExact s ok g label p at

Reach-IsExact : (s : Calls) → Reach quiet s → IsExact s
Reach-IsExact s Reach.start = start-IsExact
Reach-IsExact s (Reach.next {t = t} r step) = step-IsExact t s step (Reach-IsExact t r)

-- However calls of Inc on a new labelled family interleave, a label has a counter that holds the
-- number of its calls that have ended, modulo 2 ^ 64, or it has no counter and none of its calls
-- has ended.
pub value_exact :
    (s : Calls)
    → Reach quiet s
    → (label : String)
    → ((counter_value s.family label ≡ none) × (s.ended label ≡ 0))
      ⊎ (counter_value s.family label ≡ some (s.ended label % 2 ^ 64))
unfolding counter_value
value_exact s r label =
    let ok = Reach-IsExact s r in
    elim (Option-cases (lookup label s.family.counters)) [
      | inl missing ↦ inl (ground arith, ok.absent label missing)
      | inr (p, at) ↦ inr (rw (counter_value, at) (ok.counted label p at))
    ]
