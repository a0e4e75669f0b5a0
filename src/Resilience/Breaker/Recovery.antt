-- ===== src/Resilience/Breaker/Recovery.antt =====
-- One caller of Do at a time: how the circuit trips, refuses and recovers.
use otus_app.Base.{
  ℕ, ◌+◌, ◌*◌, ◌≤◌, ◌<◌, ◌≡◌, ◌≢◌, false, Option, none, arith, ◌⊎◌, refl, inl, inr, ◌∷◌, Bool-cases,
  ltb,
}
use otus_app.Base.Int.{pos}
use otus_app.Resilience.Jitter.{jitter, jitter_bounds, IsRandom, second}
use otus_app.Resilience.Breaker.{
  Breaker, State, Outcome, closed, is_open, half_open, success, canceled, failure, enter, do_call,
  DoResult, err_open,
}

-- The pause of a trip is at least five seconds and less than ten.
pub pause_bounds :
    (rand : ℕ → ℕ)
    → IsRandom rand
    → (5 * second ≤ jitter rand (pos 1) (pos (10 * second)) (pos (10 * second)))
      × (jitter rand (pos 1) (pos (10 * second)) (pos (10 * second)) < 10 * second)
pause_bounds rand h =
    let (low, high, _) = jitter_bounds rand (pos 1) (pos (10 * second)) (pos (10 * second)) h in
    (omega arith, omega arith)

module _ {E W : Type 0} (classify : Option E → Outcome) (rand : W → ℕ → ℕ) (now : W → ℕ)
    (ctx_err : W → Option E) (call : Breaker × W → Option E × (Breaker × W)) where
  abbrev run_do : Breaker × W → DoResult E × (Breaker × W)
  run_do = do_call classify rand now ctx_err call

  -- No other caller uses the breaker during the call.
  abbrev pub IsAlone : Type 0
  IsAlone = (b : Breaker) (w : W) → (call (b, w)).1.0 ≡ b

  -- An open circuit refuses every call until its pause is over: the call is not made, and nothing
  -- but the count of refusals changes.
  pub open_refuses :
      (b : Breaker) (w : W)
      → ctx_err w ≡ none
      → b.state ≡ is_open
      → now w < b.until
      → run_do (b, w) ≡ (err_open, (record b { rejected = b.rejected + 1 }, w))
  unfolding do_call
  open_refuses b w c o h = ground arith

  -- A successful probe after the pause closes the circuit and clears the failures.
  pub probe_recovers :
      (b : Breaker) (w : W)
      → IsAlone
      → ctx_err w ≡ none
      → b.state ≡ is_open
      → b.probe ≡ false
      → b.until ≤ now w
      → ((c : Breaker) → classify (call (c, w)).0 ≡ success)
      → let (r, (b', _)) = run_do (b, w) in
        (r ≢ err_open) × (b'.state ≡ closed) × (b'.failures ≡ 0) × (b'.probe ≡ false)
  unfolding do_call
  probe_recovers b w alone c o p h ok =
      let b₁ = (enter (now w) b).1 in ground (arith, alone b₁ w, ok b₁)

  -- A cancelled probe leaves the circuit half open with its probe free again, and counts no failure.
  pub cancelled_probe_frees :
      (b : Breaker) (w : W)
      → IsAlone
      → ctx_err w ≡ none
      → b.state ≡ is_open
      → b.probe ≡ false
      → b.until ≤ now w
      → ((c : Breaker) → classify (call (c, w)).0 ≡ canceled)
      → let b' = (run_do (b, w)).1.0 in
        (b'.state ≡ half_open) × (b'.probe ≡ false) × (b'.failures ≡ b.failures)
  unfolding do_call
  cancelled_probe_frees b w alone c o p h ok =
      let b₁ = (enter (now w) b).1 in ground (arith, alone b₁ w, ok b₁)

  -- What a failing call makes of the breaker when it is let through.
  abbrev Tripped : Breaker → Breaker → ℕ → Type 0
  Tripped b b' answered =
      (b'.state ≡ is_open)
      × (b'.trips ≡ b.trips + 1)
      × (answered + 5 * second ≤ b'.until)
      × (b'.until < answered + 10 * second)

  -- In the closed state, and as the probe of the half-open state and of an open state that is over.
  closed_fails :
      (b : Breaker) (w : W)
      → IsAlone
      → IsRandom (rand (call ((enter (now w) b).1, w)).1.1)
      → ctx_err w ≡ none
      → b.state ≡ closed
      → ((c : Breaker) → classify (call (c, w)).0 ≡ failure)
      → let b' = (run_do (b, w)).1.0 in
        (b'.failures ≡ b.failures + 1)
        × (((b'.failures < 3) × (b'.state ≡ closed) × (b'.trips ≡ b.trips))
            ⊎ ((3 ≤ b'.failures) × Tripped b b' (now (run_do (b, w)).1.1)))
  unfolding do_call
  closed_fails b w alone rnd c o bad =
      let b₁ = (enter (now w) b).1 in
      ground (arith, alone b₁ w, bad b₁, pause_bounds (rand (call (b₁, w)).1.1) rnd)

  half_open_fails :
      (b : Breaker) (w : W)
      → IsAlone
      → IsRandom (rand (call ((enter (now w) b).1, w)).1.1)
      → ctx_err w ≡ none
      → b.state ≡ half_open
      → b.probe ≡ false
      → ((c : Breaker) → classify (call (c, w)).0 ≡ failure)
      → let b' = (run_do (b, w)).1.0 in
        (b'.failures ≡ b.failures + 1)
        × Tripped b b' (now (run_do (b, w)).1.1)
        × (b'.transitions ≡ (half_open, is_open) ∷ b.transitions)
  unfolding do_call
  half_open_fails b w alone rnd c o p bad =
      let b₁ = (enter (now w) b).1 in
      ground (arith, alone b₁ w, bad b₁, pause_bounds (rand (call (b₁, w)).1.1) rnd)

  open_fails :
      (b : Breaker) (w : W)
      → IsAlone
      → IsRandom (rand (call ((enter (now w) b).1, w)).1.1)
      → ctx_err w ≡ none
      → b.state ≡ is_open
      → b.until ≤ now w
      → b.probe ≡ false
      → ((c : Breaker) → classify (call (c, w)).0 ≡ failure)
      → let b' = (run_do (b, w)).1.0 in
        (b'.failures ≡ b.failures + 1)
        × Tripped b b' (now (run_do (b, w)).1.1)
        × (b'.transitions ≡ (half_open, is_open) ∷ (is_open, half_open) ∷ b.transitions)
  unfolding do_call
  open_fails b w alone rnd c o over p bad =
      let b₁ = (enter (now w) b).1 in
      ground (arith, alone b₁ w, bad b₁, pause_bounds (rand (call (b₁, w)).1.1) rnd)

  -- A failing call by state: refused by an open circuit before its pause is over; the probe of an open
  -- circuit afterwards, which passes through the half-open state and trips again; the probe of a half-open
  -- circuit, which trips; or counted in the closed state, where the third failure trips.
  abbrev pub FailingCall : Breaker → W → Type 0
  FailingCall b w =
      let r = run_do (b, w) in
      let b' = r.1.0 in
      let answered = now r.1.1 in
      ((b.state ≡ is_open)
        × (now w < b.until)
        × (r ≡ (err_open, (record b { rejected = b.rejected + 1 }, w))))
      ⊎ ((b.state ≡ is_open)
          × (b.until ≤ now w)
          × (b'.failures ≡ b.failures + 1)
          × Tripped b b' answered
          × (b'.transitions ≡ (half_open, is_open) ∷ (is_open, half_open) ∷ b.transitions))
      ⊎ ((b.state ≡ half_open)
          × (b'.failures ≡ b.failures + 1)
          × Tripped b b' answered
          × (b'.transitions ≡ (half_open, is_open) ∷ b.transitions))
      ⊎ ((b.state ≡ closed)
          × (b'.failures ≡ b.failures + 1)
          × (((b'.failures < 3) × (b'.state ≡ closed) × (b'.trips ≡ b.trips))
              ⊎ ((3 ≤ b'.failures) × Tripped b b' answered)))

  -- For a caller that is alone with a breaker whose probe is free, with a context that is not
  -- done, a call that would fail: an open circuit refuses it before its pause is over and changes
  -- nothing but the count of refusals. Otherwise the call is counted as one more failure. In the
  -- closed state the circuit stays closed before the third failure and trips from the third on;
  -- half open, and open after the pause, where it goes to half open first, the call is the probe
  -- and the circuit trips. A trip is counted and opens the circuit for five to ten seconds from
  -- the answer.
  pub failure_trips :
      (b : Breaker) (w : W)
      → IsAlone
      → IsRandom (rand (call ((enter (now w) b).1, w)).1.1)
      → ctx_err w ≡ none
      → b.probe ≡ false
      → ((c : Breaker) → classify (call (c, w)).0 ≡ failure)
      → FailingCall b w
  failure_trips b w alone rnd c p bad = by_state b.state refl
    where
      by_state : (s : State) → b.state ≡ s → FailingCall b w
      by_state closed e =
          let (f, t) = closed_fails b w alone rnd c e bad in inr (inr (inr (e, f, t)))
      by_state half_open e =
          let (f, t, q) = half_open_fails b w alone rnd c e p bad in inr (inr (inl (e, f, t, q)))
      by_state is_open e = elim (Bool-cases (ltb (now w) b.until)) [
        | inl y ↦ inl (e, ground arith, open_refuses b w c e (ground arith))
        | inr n ↦
            let over : b.until ≤ now w = ground arith in
            let (f, t, q) = open_fails b w alone rnd c e over p bad in inr (inl (e, over, f, t, q))
      ]
