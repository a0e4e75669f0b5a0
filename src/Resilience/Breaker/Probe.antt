-- ===== src/Resilience/Breaker/Probe.antt =====
-- The invariant of a shared breaker: one probe at a time, and no call that could close an open
-- circuit.
use otus_app.Base.{
  subst, ℕ, zero, suc, ◌+◌, ◌^◌, ◌≤◌, ◌<◌, ◌≡◌, ◌≢◌, refl, false, some, List, [], ◌∷◌, ◌==◌,
  if◌then◌else◌, get_elem?, arith, length, Option-cases, inl, inr,
}
use native.Mathlib.Nat.{add-zero, zero-add}
use otus_app.Resilience.Breaker.{
  Outcome, closed, is_open, half_open, new_breaker, enter, leave, state_code,
}
use otus_app.Resilience.Breaker.System.{
  Event, arrive, answer, elapse, System, start, remove_at, step, run, count,
}

abbrev pub AllLe : ℕ → List ℕ → Type 0
AllLe n [] = Unit {0}
AllLe n (g ∷ gs) = (g ≤ n) × AllLe n gs

AllLe-mono : (m n : ℕ) (gs : List ℕ) → m ≤ n → AllLe m gs → AllLe n gs
AllLe-mono m n [] h a = tt
AllLe-mono m n (g ∷ gs) h a = (omega arith, AllLe-mono m n gs h a.1)

AllLe-remove_at : (n i : ℕ) (gs : List ℕ) → AllLe n gs → AllLe n (remove_at i gs)
unfolding remove_at
AllLe-remove_at n i [] a = tt
AllLe-remove_at n zero (g ∷ gs) a = a.1
AllLe-remove_at n (suc i) (g ∷ gs) a = (a.0, AllLe-remove_at n i gs a.1)

count_fresh : (n g : ℕ) (gs : List ℕ) → AllLe n gs → n < g → count g gs ≡ 0
unfolding count
count_fresh n g [] a h = refl
count_fresh n g (x ∷ gs) a h = ground (arith, count_fresh n g gs a.1)

count-remove_at :
    (h i : ℕ) (gs : List ℕ) (g : ℕ)
    → get_elem? gs i ≡ some g
    → count h gs ≡ (if g == h then 1 else 0) + count h (remove_at i gs)
unfolding count remove_at
count-remove_at h i [] g e = absurd (cc)
count-remove_at h zero (x ∷ gs) g e = ground arith
count-remove_at h (suc i) (x ∷ gs) g e = ground (arith, count-remove_at h i gs g e)

-- What holds after n steps.
pub record Inv (n : ℕ) (s : System) : Type 0 where
  pub counted : s.breaker.generation ≤ n
  pub past : AllLe s.breaker.generation s.flight
  pub one_probe :
      s.breaker.state ≡ half_open
      → count s.breaker.generation s.flight ≡ (if s.breaker.probe then 1 else 0)
  pub no_call : s.breaker.state ≡ is_open → count s.breaker.generation s.flight ≡ 0
  pub probe_half_open : s.breaker.state ≢ half_open → s.breaker.probe ≡ false
  pub few_failures : s.breaker.state ≡ closed → s.breaker.failures < 3
  pub failures_counted : s.breaker.failures ≤ n
  pub gauge_true : s.breaker.gauge ≡ state_code s.breaker.state

start-Inv : (now : ℕ) → Inv 0 (start now)
unfolding new_breaker count
start-Inv now = record {
  counted = omega arith;
  past = tt;
  one_probe = λ e. ground arith;
  no_call = λ e. ground arith;
  probe_half_open = λ e. refl;
  few_failures = λ e. omega arith;
  failures_counted = omega arith;
  gauge_true = refl;
}

enter-Inv : (n : ℕ) (s : System) → n + 1 < 2 ^ 64 → Inv n s → Inv (n + 1) (step arrive s)
unfolding step enter count
enter-Inv n s lt v =
    let g = s.breaker.generation in
    ground (arith, count_fresh g (g + 1) s.flight v.past, AllLe-mono g (g + 1) s.flight)

answer-Inv :
    (n i : ℕ) (o : Outcome) (r : ℕ) (s : System)
    → n + 1 < 2 ^ 64
    → Inv n s
    → Inv (n + 1) (step (answer i o r) s)
unfolding step leave
answer-Inv n i o r s lt v = elim (Option-cases (get_elem? s.flight i)) [
  | inl e ↦ ground arith
  | inr (g, e) ↦
      let h = s.breaker.generation in
      let rest = remove_at i s.flight in
      let keep = AllLe-remove_at h i s.flight v.past in
      ground (
        arith,
        count-remove_at h i s.flight g e,
        keep,
        count_fresh h (h + 1) rest keep,
        AllLe-mono h (h + 1) rest,
      )
]

elapse-Inv : (n d : ℕ) (s : System) → Inv n s → Inv (n + 1) (step (elapse d) s)
unfolding step
elapse-Inv n d s v = ground arith

step-Inv : (n : ℕ) (e : Event) (s : System) → n + 1 < 2 ^ 64 → Inv n s → Inv (n + 1) (step e s)
step-Inv n arrive s lt v = enter-Inv n s lt v
step-Inv n (answer i o r) s lt v = answer-Inv n i o r s lt v
step-Inv n (elapse d) s lt v = elapse-Inv n d s v

run-Inv_from :
    (n : ℕ) (es : List Event) (s : System)
    → n + length es < 2 ^ 64
    → Inv n s
    → Inv (n + length es) (run es s)
unfolding run
run-Inv_from n [] s lt v = rw (add-zero) v
run-Inv_from n (e ∷ es) s lt v =
    rw (← add_one_length n es)
      (run-Inv_from (n + 1) es (step e s) (omega arith) (step-Inv n e s (omega arith) v))
  where
    add_one_length : (n : ℕ) (es : List Event) → n + 1 + length es ≡ n + suc (length es)
    add_one_length n es = omega arith

pub run-Inv :
    (now : ℕ) (es : List Event) → length es < 2 ^ 64 → Inv (length es) (run es (start now))
run-Inv now es lt =
    subst (λ n. Inv n (run es (start now))) (zero-add (length es))
      (run-Inv_from 0 es (start now) (omega arith) (start-Inv now))

-- After any history of fewer than 2^64 events: in the half-open state at most one call of the
-- current generation is in flight, and exactly when the probe is taken; in the open state there is
-- none; a closed circuit has seen fewer than three failures in a row; the gauge shows the state.
pub run_single_probe :
    (now : ℕ) (es : List Event)
    → length es < 2 ^ 64
    → let s = run es (start now) in
      (s.breaker.state ≡ half_open
        → count s.breaker.generation s.flight ≡ (if s.breaker.probe then 1 else 0))
      × (s.breaker.state ≡ is_open → count s.breaker.generation s.flight ≡ 0)
      × (s.breaker.state ≡ closed → s.breaker.failures < 3)
      × (s.breaker.gauge ≡ state_code s.breaker.state)
run_single_probe now es lt =
    let v = run-Inv now es lt in (v.one_probe, v.no_call, v.few_failures, v.gauge_true)

open_ignores :
    (n i : ℕ) (o : Outcome) (r : ℕ) (s : System)
    → Inv n s
    → s.breaker.state ≡ is_open
    → let t = step (answer i o r) s in
      (t.breaker.state ≡ is_open)
      × (t.breaker.until ≡ s.breaker.until)
      × (t.breaker.generation ≡ s.breaker.generation)
      × (t.breaker.failures ≡ s.breaker.failures)
unfolding step leave
open_ignores n i o r s v h = elim (Option-cases (get_elem? s.flight i)) [
  | inl e ↦ ground arith
  | inr (g, e) ↦ ground (arith, count-remove_at s.breaker.generation i s.flight g e)
]

-- While the circuit is open no answer that comes in changes it: every call in flight was admitted
-- before the circuit opened.
pub open_ignores_answers :
    (now : ℕ) (es : List Event) (i : ℕ) (o : Outcome) (r : ℕ)
    → length es < 2 ^ 64
    → (run es (start now)).breaker.state ≡ is_open
    → let s = run es (start now) in
      let t = step (answer i o r) s in
      (t.breaker.state ≡ is_open)
      × (t.breaker.until ≡ s.breaker.until)
      × (t.breaker.generation ≡ s.breaker.generation)
      × (t.breaker.failures ≡ s.breaker.failures)
open_ignores_answers now es i o r lt h =
    open_ignores (length es) i o r (run es (start now)) (run-Inv now es lt) h
