-- ===== src/Tests/Resilience.antt =====
-- Retries, pauses and the breaker at concrete inputs.
use otus_app.Base.{
  ℕ, ◌+◌, ◌-◌, ◌*◌, ◌≤◌, ◌<◌, ◌≡◌, ◌≢◌, refl, Bool, true, false, Option, none, some, List, [], ◌∷◌,
  arith, ◌==◌, if◌then◌else◌, ◌⊎◌,
}
use otus_app.Base.Int.{pos, negsuc}
use otus_app.Resilience.Jitter.{
  second, millisecond, jitter, backoff, jitter_bounds, backoff_bounds, IsRandom, full_delay, grow,
}
use otus_app.Resilience.Retry.{Policy, Runtime, do_policy, do_from, round}
use otus_app.Resilience.Retry.Budget.{
  Counters, DoneHasError, do_policy_total, do_policy_success, do_policy_permanent, do_policy_counts,
}
use otus_app.Resilience.Breaker.{
  Breaker, closed, is_open, half_open, Outcome, success, canceled, failure, new_breaker, err_open,
  do_call, enter, leave,
}
use otus_app.Resilience.Breaker.System.{
  Event, arrive, answer, elapse, start, run, step, count, remove_at,
}
use otus_app.Resilience.Breaker.Probe.{run_single_probe, open_ignores_answers}
use otus_app.Resilience.Breaker.Recovery.{
  FailingCall, open_refuses, probe_recovers, cancelled_probe_frees, failure_trips,
}

abbrev middle : ℕ → ℕ
middle n = n - 1

middle-IsRandom : IsRandom middle
middle-IsRandom n h = omega arith

fourth_delay : full_delay (pos 4) (pos 100) (pos 1000) ≡ 800
unfolding full_delay grow
fourth_delay = refl

jitter_bounds_example :
    (400 ≤ jitter middle (pos 4) (pos 100) (pos 1000))
    × (jitter middle (pos 4) (pos 100) (pos 1000) < 800)
    × (0 < 800 - 400)
jitter_bounds_example = jitter_bounds middle (pos 4) (pos 100) (pos 1000) middle-IsRandom

backoff_bounds_example :
    (500 * millisecond ≤ backoff middle (negsuc 0)) × (backoff middle (negsuc 0) < 30 * second)
backoff_bounds_example = backoff_bounds middle (negsuc 0) middle-IsRandom

-- A world that counts, with a number of failures to come.
record Bench : Type 0 where
  calls : ℕ
  retries : ℕ
  exhaustions : ℕ
  failing : ℕ

abbrev runtime : Runtime ℕ Bench
runtime = record {
  ctx_err = λ w. none;
  select = λ d w. (true, w);
  rand = λ w n. n - 1;
  retried = λ w. record w { retries = w.retries + 1 };
  exhausted = λ w. record w { exhaustions = w.exhaustions + 1 };
}

abbrev attempt : Bench → Option ℕ × Bench
attempt w = (
  if w.failing == 0 then none else some 7,
  record w { calls = w.calls + 1; failing = w.failing - 1 },
)

abbrev bench_counters : Counters runtime attempt
bench_counters = record {
  calls = λ w. w.calls;
  retries = λ w. w.retries;
  exhaustions = λ w. w.exhaustions;
  calls-call = λ w. refl;
  retries-call = λ w. refl;
  exhaustions-call = λ w. refl;
  calls-select = λ d w. refl;
  retries-select = λ d w. refl;
  exhaustions-select = λ d w. refl;
  calls-retried = λ w. refl;
  retries-retried = λ w. refl;
  exhaustions-retried = λ w. refl;
  calls-exhausted = λ w. refl;
  retries-exhausted = λ w. refl;
  exhaustions-exhausted = λ w. refl;
}

abbrev three_attempts : Policy
three_attempts = record { attempts = pos 3; base = pos 50; limit = pos 1000 }

abbrev fresh : ℕ → Bench
fresh n = record { calls = 0; retries = 0; exhaustions = 0; failing = n }

abbrev always : ℕ → Bool
always e = true

retried_twice :
    do_policy runtime three_attempts always attempt (fresh 2)
    ≡ some (none, record { calls = 3; retries = 2; exhaustions = 0; failing = 0 })
unfolding do_policy do_from round jitter grow
retried_twice = refl

gave_up :
    do_policy runtime three_attempts always attempt (fresh 5)
    ≡ some (some 7, record { calls = 3; retries = 2; exhaustions = 1; failing = 2 })
unfolding do_policy do_from round jitter grow
gave_up = refl

do_policy_total_example :
    (r : Option ℕ × Bench) × (do_policy runtime three_attempts always attempt (fresh 5) ≡ some r)
do_policy_total_example = do_policy_total runtime three_attempts always attempt (fresh 5)

do_policy_counts_example :
    (3 ≤ 0 + 3)
    × (((◌≡◌ {A = ℕ} 3 0) × (◌≡◌ {A = ℕ} 2 0)) ⊎ (3 + 0 ≡ 0 + 2 + 1))
    × (1 ≤ 0 + 1)
    × (0 < 1 → 3 ≡ 0 + 3)
do_policy_counts_example =
    do_policy_counts runtime three_attempts always attempt bench_counters (fresh 5) (some 7)
      (record { calls = 3; retries = 2; exhaustions = 1; failing = 2 }) gave_up

never_done : DoneHasError runtime
never_done d w h = absurd (cc)

do_policy_success_example :
    (u : Bench) × (attempt u
      ≡ (none, record { calls = 3; retries = 2; exhaustions = 0; failing = 0 }))
do_policy_success_example =
    do_policy_success runtime three_attempts always attempt (fresh 2)
      (record { calls = 3; retries = 2; exhaustions = 0; failing = 0 }) never_done retried_twice

do_policy_permanent_example :
    do_policy runtime three_attempts (λ e. false) attempt (fresh 5)
    ≡ some (some 7, record { calls = 1; retries = 0; exhaustions = 0; failing = 4 })
do_policy_permanent_example =
    do_policy_permanent runtime three_attempts (λ e. false) attempt (fresh 5)
      (record { calls = 1; retries = 0; exhaustions = 0; failing = 4 }) 7 refl refl refl

-- Three failures, the pause, and a probe on its way while another caller is refused.
abbrev outage : List Event
outage =
    arrive
    ∷ arrive
    ∷ answer 0 failure 1
    ∷ answer 0 failure 1
    ∷ arrive
    ∷ arrive
    ∷ answer 0 failure 1
    ∷ arrive
    ∷ elapse (11 * second)
    ∷ arrive
    ∷ arrive
    ∷ []

outage_probing :
    let b = (run outage (start 0)).breaker in
    (b.state ≡ half_open) × (b.probe ≡ true) × (b.trips ≡ 1) × (b.rejected ≡ 2)
unfolding run step new_breaker enter remove_at leave jitter grow
outage_probing = (refl, refl, refl, refl)

run_single_probe_example :
    let s = run outage (start 0) in
    (s.breaker.state ≡ half_open
      → count s.breaker.generation s.flight ≡ (if s.breaker.probe then 1 else 0))
    × (s.breaker.state ≡ is_open → count s.breaker.generation s.flight ≡ 0)
    × (s.breaker.state ≡ closed → s.breaker.failures < 3)
    × (s.breaker.gauge ≡ (elim s.breaker.state [ closed ↦ 0 | is_open ↦ 1 | half_open ↦ 2 ]))
run_single_probe_example = run_single_probe 0 outage (omega arith)

-- An answer of before the outage comes in while the circuit is open.
abbrev tripped : List Event
tripped =
    arrive
    ∷ arrive
    ∷ arrive
    ∷ arrive
    ∷ answer 0 failure 1
    ∷ answer 0 failure 1
    ∷ answer 0 failure 1
    ∷ []

tripped_is_open : (run tripped (start 0)).breaker.state ≡ is_open
unfolding run step new_breaker enter remove_at leave jitter grow
tripped_is_open = refl

open_ignores_answers_example :
    let s = run tripped (start 0) in
    let t = step (answer 0 success 1) s in
    (t.breaker.state ≡ is_open)
    × (t.breaker.until ≡ s.breaker.until)
    × (t.breaker.generation ≡ s.breaker.generation)
    × (t.breaker.failures ≡ s.breaker.failures)
open_ignores_answers_example =
    open_ignores_answers 0 tripped 0 success 1 (omega arith) tripped_is_open

-- The world of one caller is the time.
abbrev as_given : Outcome → Option ℕ → Outcome
as_given o r = o

abbrev no_error : ℕ → Option ℕ
no_error w = none

abbrev answering : Breaker × ℕ → Option ℕ × (Breaker × ℕ)
answering s = (some 7, s)

abbrev draw : ℕ → ℕ → ℕ
draw w n = n - 1

abbrev opened : Breaker
opened = record {
  state = is_open;
  failures = 3;
  generation = 1;
  probe = false;
  until = 7 * second;
  gauge = 1;
  transitions = (closed, is_open) ∷ [];
  trips = 1;
  rejected = 0;
  answered = failure ∷ failure ∷ failure ∷ [];
}

open_refuses_example :
    do_call (as_given success) draw (λ w. w) no_error answering (opened, 5)
    ≡ (err_open, (record opened { rejected = 1 }, 5))
open_refuses_example =
    open_refuses (as_given success) draw (λ w. w) no_error answering opened 5 refl refl
      (omega arith)

probe_recovers_example :
    let (r, (b', _)) =
      do_call (as_given success) draw (λ w. w) no_error answering (opened, 8 * second) in
    (r ≢ err_open) × (b'.state ≡ closed) × (b'.failures ≡ 0) × (b'.probe ≡ false)
probe_recovers_example =
    probe_recovers (as_given success) draw (λ w. w) no_error answering opened (8 * second)
      (λ b w. refl) refl refl refl (omega arith) (λ c. refl)

cancelled_probe_frees_example :
    let b' =
      (do_call (as_given canceled) draw (λ w. w) no_error answering (opened, 8 * second)).1.0 in
    (b'.state ≡ half_open) × (b'.probe ≡ false) × (b'.failures ≡ 3)
cancelled_probe_frees_example =
    cancelled_probe_frees (as_given canceled) draw (λ w. w) no_error answering opened (8 * second)
      (λ b w. refl) refl refl refl (omega arith) (λ c. refl)

failure_trips_example :
    FailingCall (as_given failure) draw (λ w. w) no_error answering opened (8 * second)
failure_trips_example =
    failure_trips (as_given failure) draw (λ w. w) no_error answering opened (8 * second)
      (λ b w. refl) middle-IsRandom refl refl (λ c. refl)
