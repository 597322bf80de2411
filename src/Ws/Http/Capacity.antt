-- ===== src/Ws/Http/Capacity.antt =====
-- The number of connections.
use network_ultra_server.Prelude.{
  ℕ, ◌+◌, ◌-◌, ◌≡◌, ◌≤◌, ◌<◌, refl, subst, inl, inr, false, List, arith, Bool-cases,
}
use network_ultra_server.Strings.{Bytes, ℤ, pos, negsuc}
use network_ultra_server.Ws.Http.{Gate, Answer, has_origin, is_full, handle_http, release}

-- The gate, with the number of requests that were upgraded and are not over.
pub record Traffic : Type 0 where
  pub gate : Gate
  pub running : ℕ

abbrev pub idle : ℤ → Traffic
idle max = record { gate = record { cur_conns = 0; max_connections = max }; running = 0 }

abbrev pub counted : Answer → ℕ → ℕ
counted Answer.upgraded n = n + 1
counted Answer.forbidden n = n
counted Answer.server_full n = n

abbrev pub after_request : Traffic → List Bytes → Traffic
after_request t origins =
    let (gate, answer) = handle_http t.gate origins in
    record { gate = gate; running = counted answer t.running }

abbrev pub after_end : Traffic → Traffic
after_end t = record { gate = release t.gate; running = t.running - 1 }

-- A request comes, or one of those that run is over.
pub data Step (t : Traffic) : Traffic → Type 0 where
  requests : (origins : List Bytes) → Step t (after_request t origins)
  ends : 0 < t.running → Step t (after_end t)

pub data Reach (s : Traffic) : Traffic → Type 0 where
  start : Reach s s
  next : {t u : Traffic} → Reach s t → Step t u → Reach s u

abbrev pub allowance : ℤ → ℕ
allowance (pos n) = n
allowance (negsuc n) = 0

pub record IsCounted (max : ℤ) (t : Traffic) : Type 0 where
  pub counts : t.gate.cur_conns ≡ t.running
  pub limit : t.gate.max_connections ≡ max
  pub within : t.running ≤ allowance max

below_limit :
    (cur : ℕ) (max : ℤ)
    → is_full (record { cur_conns = cur; max_connections = max }) ≡ false
    → cur < allowance max
unfolding is_full
below_limit cur (pos max) h = ground arith
below_limit cur (negsuc n) h = absurd (ground arith)

request-IsCounted :
    (max : ℤ) (t : Traffic) (origins : List Bytes)
    → IsCounted max t
    → IsCounted max (after_request t origins)
unfolding handle_http
request-IsCounted max t origins ok = elim (Bool-cases (has_origin origins)) [
  | inl browser ↦ rw browser (record { counts = ok.counts; limit = ok.limit; within = ok.within })
  | inr native ↦ elim (Bool-cases (is_full t.gate)) [
    | inl full ↦
        rw (native, full) (record { counts = ok.counts; limit = ok.limit; within = ok.within })
    | inr room ↦
        let below =
          subst (λ m. t.gate.cur_conns < allowance m) ok.limit
            (below_limit t.gate.cur_conns t.gate.max_connections room) in
        let counts = ok.counts in
        let limit = ok.limit in
        rw (native, room) (record { counts = omega arith; limit = limit; within = omega arith })
  ]
]

end-IsCounted :
    (max : ℤ) (t : Traffic) → 0 < t.running → IsCounted max t → IsCounted max (after_end t)
unfolding release
end-IsCounted max t some_run ok =
    let counts = ok.counts in
    let within = ok.within in
    record { counts = omega arith; limit = ok.limit; within = omega arith }

-- Through any sequence of requests and ends of requests, the connection count is the number of
-- upgraded requests that are not over, and never above the limit.
pub Reach-IsCounted : (max : ℤ) (t : Traffic) → Reach (idle max) t → IsCounted max t
Reach-IsCounted max t Reach.start = record { counts = refl; limit = refl; within = omega arith }
Reach-IsCounted max t (Reach.next {t = s} r (Step.requests origins)) =
    request-IsCounted max s origins (Reach-IsCounted max s r)
Reach-IsCounted max t (Reach.next {t = s} r (Step.ends some_run)) =
    end-IsCounted max s some_run (Reach-IsCounted max s r)
