-- ===== src/Resilience/Retry/Budget.antt =====
-- The retry loop ends within its budget of calls, and its metrics count what it did.
use otus_app.Base.{
  ◌-◌, ◌∙◌, false, ℕ, zero, suc, ◌+◌, ◌≤◌, ◌<◌, ◌≡◌, ◌≢◌, Bool, Option, none, some, arith, ltb,
  if◌then◌else◌, Option-cases, inl, inr, ap, ◌⊎◌,
}
use otus_app.Resilience.Jitter.{jitter, at_least_low}
use otus_app.Base.Int.{pos}
use otus_app.Resilience.Retry.{
  Policy, Runtime, count_retry, after_failure, round, do_from, do_policy, budget,
}

budget_pos : (p : Policy) → 0 < budget p
budget_pos p = at_least_low 1 p.attempts

-- A context whose Done channel is closed has an error (documented by package context).
abbrev pub DoneHasError : {E W : Type 0} → Runtime E W → Type 0
DoneHasError {W} rt =
    (d : ℕ) (w : W) → (rt.select d w).0 ≡ false → rt.ctx_err (rt.select d w).1 ≢ none

module _ {E W : Type 0} (rt : Runtime E W) (p : Policy) (retryable : E → Bool)
    (call : W → Option E × W) where
  -- The round at the end of the budget ends the loop.
  last_round :
      (attempt : ℕ) (w : W) → budget p ≤ attempt → (round rt p retryable call attempt w).0 ≢ none
  unfolding round
  last_round attempt w h = ground arith

  do_from_total :
      (f attempt : ℕ) (w : W)
      → budget p < f + attempt
      → 0 < f
      → do_from rt p retryable call f attempt w ≢ none
  unfolding do_from
  do_from_total zero attempt w h q = absurd (omega arith)
  do_from_total (suc zero) attempt w h q = ground (arith, last_round attempt w)
  do_from_total (suc (suc f)) attempt w h q =
      ground (arith, do_from_total (suc f) (attempt + 1) (round rt p retryable call attempt w).1)

  -- Policy.Do returns: its loop ends within its budget of rounds, whatever the calls answer.
  pub do_policy_total : (w : W) → (r : Option E × W) × (do_policy rt p retryable call w ≡ some r)
  unfolding do_policy
  do_policy_total w = elim (Option-cases (do_policy rt p retryable call w)) [
    | inl q ↦ absurd (do_from_total (budget p) 1 w (omega arith) (budget_pos p) q)
    | inr s ↦ s
  ]

  after_failure_success :
      (attempt : ℕ) (e : E) (w : W)
      → DoneHasError rt
      → (after_failure rt p retryable call attempt e w).0 ≢ some none
  unfolding after_failure
  after_failure_success attempt e w law h =
      ground (arith, law (jitter (rt.rand w) (pos attempt) p.base p.limit) w)

  round_success :
      (attempt : ℕ) (w : W)
      → DoneHasError rt
      → (round rt p retryable call attempt w).0 ≡ some none
      → call (count_retry rt p retryable call attempt w)
        ≡ (none, (round rt p retryable call attempt w).1)
  unfolding round
  round_success attempt w law h =
      let w₂ = call (count_retry rt p retryable call attempt w) in
      elim (Option-cases w₂.0) [
        | inl q ↦ ground arith
        | inr (e, q) ↦ absurd (after_failure_success attempt e w₂.1 law (ground arith))
      ]

  do_from_success :
      (f attempt : ℕ) (w w' : W)
      → DoneHasError rt
      → do_from rt p retryable call f attempt w ≡ some (none, w')
      → (u : W) × (call u ≡ (none, w'))
  unfolding do_from
  do_from_success zero attempt w w' law h = absurd (cc)
  do_from_success (suc f) attempt w w' law h =
      let u = (round rt p retryable call attempt w).1 in
      elim (Option-cases (round rt p retryable call attempt w).0) [
        | inl q ↦ do_from_success f (attempt + 1) u w' law (ground arith)
        | inr (d, q) ↦
            let v = count_retry rt p retryable call attempt w in
            (v, ground (arith, round_success attempt w law))
      ]

  -- Policy.Do reports success only for a call that returned nil, and leaves the world as that call
  -- left it.
  pub do_policy_success :
      (w w' : W)
      → DoneHasError rt
      → do_policy rt p retryable call w ≡ some (none, w')
      → (u : W) × (call u ≡ (none, w'))
  unfolding do_policy
  do_policy_success w w' law h = do_from_success (budget p) 1 w w' law h

  round_permanent :
      (w w' : W) (e : E)
      → rt.ctx_err w ≡ none
      → call w ≡ (some e, w')
      → retryable e ≡ false
      → round rt p retryable call 1 w ≡ (some (some e), w')
  unfolding round after_failure count_retry
  round_permanent w w' e q h k = ground arith

  do_from_done :
      (f attempt : ℕ) (w : W) (r : Option E) (w' : W)
      → round rt p retryable call attempt w ≡ (some r, w')
      → do_from rt p retryable call (suc f) attempt w ≡ some (r, w')
  unfolding do_from
  do_from_done f attempt w r w' h = ground arith

  -- An error that is not retryable ends the loop after one call and is returned as it is.
  pub do_policy_permanent :
      (w w' : W) (e : E)
      → rt.ctx_err w ≡ none
      → call w ≡ (some e, w')
      → retryable e ≡ false
      → do_policy rt p retryable call w ≡ some (some e, w')
  unfolding do_policy
  do_policy_permanent w w' e q h k =
      ap (λ n. do_from rt p retryable call n 1 w) (pred_lem (budget p) (budget_pos p))
      ∙ do_from_done (budget p - 1) 1 w (some e) w' (round_permanent w w' e q h k)
    where
      pred_lem : (n : ℕ) → 0 < n → n ≡ suc (n - 1)
      pred_lem n h = omega arith

-- What is counted in the world: calls, repeats and exhausted budgets.
pub record Counters {E W : Type 0} (rt : Runtime E W) (call : W → Option E × W) : Type 0 where
  pub calls : W → ℕ
  pub retries : W → ℕ
  pub exhaustions : W → ℕ
  pub calls-call : (w : W) → calls (call w).1 ≡ calls w + 1
  pub retries-call : (w : W) → retries (call w).1 ≡ retries w
  pub exhaustions-call : (w : W) → exhaustions (call w).1 ≡ exhaustions w
  pub calls-select : (d : ℕ) (w : W) → calls (rt.select d w).1 ≡ calls w
  pub retries-select : (d : ℕ) (w : W) → retries (rt.select d w).1 ≡ retries w
  pub exhaustions-select : (d : ℕ) (w : W) → exhaustions (rt.select d w).1 ≡ exhaustions w
  pub calls-retried : (w : W) → calls (rt.retried w) ≡ calls w
  pub retries-retried : (w : W) → retries (rt.retried w) ≡ retries w + 1
  pub exhaustions-retried : (w : W) → exhaustions (rt.retried w) ≡ exhaustions w
  pub calls-exhausted : (w : W) → calls (rt.exhausted w) ≡ calls w
  pub retries-exhausted : (w : W) → retries (rt.exhausted w) ≡ retries w
  pub exhaustions-exhausted : (w : W) → exhaustions (rt.exhausted w) ≡ exhaustions w + 1

module _ {E W : Type 0} (rt : Runtime E W) (p : Policy) (retryable : E → Bool)
    (call : W → Option E × W) (c : Counters rt call) where
  open c use {calls, retries, exhaustions}

  count_retry_adds :
      (attempt : ℕ) (w : W)
      → let w' = count_retry rt p retryable call attempt w in
        (calls w' ≡ calls w)
        × (retries w' ≡ retries w + (if ltb 1 attempt then 1 else 0))
        × (exhaustions w' ≡ exhaustions w)
  unfolding count_retry
  count_retry_adds attempt w =
      ground (arith, c.calls-retried w, c.retries-retried w, c.exhaustions-retried w)

  after_failure_adds :
      (attempt : ℕ) (e : E) (w : W)
      → let (done, w') = after_failure rt p retryable call attempt e w in
        (calls w' ≡ calls w)
        × (retries w' ≡ retries w)
        × (exhaustions w ≤ exhaustions w')
        × (exhaustions w' ≤ exhaustions w + 1)
        × (exhaustions w < exhaustions w' → budget p ≤ attempt)
        × (done ≡ none → exhaustions w' ≡ exhaustions w)
        × (done ≡ none → attempt < budget p)
  unfolding after_failure
  after_failure_adds attempt e w =
      let d = jitter (rt.rand w) (pos attempt) p.base p.limit in
      ground (
        arith,
        c.calls-select d w,
        c.retries-select d w,
        c.exhaustions-select d w,
        c.calls-exhausted w,
        c.retries-exhausted w,
        c.exhaustions-exhausted w,
      )

  -- What one round of the loop adds to the counters: no call if the context is done, else one call.
  round_adds :
      (attempt : ℕ) (w : W)
      → let (done, w') = round rt p retryable call attempt w in
        ((done ≢ none)
          × (calls w' ≡ calls w)
          × (retries w' ≡ retries w)
          × (exhaustions w' ≡ exhaustions w))
        ⊎ ((calls w' ≡ calls w + 1)
            × (retries w' ≡ retries w + (if ltb 1 attempt then 1 else 0))
            × (exhaustions w ≤ exhaustions w')
            × (exhaustions w' ≤ exhaustions w + 1)
            × (exhaustions w < exhaustions w' → budget p ≤ attempt)
            × (done ≡ none → exhaustions w' ≡ exhaustions w)
            × (done ≡ none → attempt < budget p))
  unfolding round
  round_adds attempt w =
      let w₁ = count_retry rt p retryable call attempt w in
      let counted = count_retry_adds attempt w in
      elim (Option-cases (call w₁).0) [
        | inl q ↦ ground (arith, counted, c.calls-call w₁, c.retries-call w₁, c.exhaustions-call w₁)
        | inr (e, q) ↦ ground (
          arith,
          counted,
          c.calls-call w₁,
          c.retries-call w₁,
          c.exhaustions-call w₁,
          after_failure_adds attempt e (call w₁).1,
        )
      ]

  -- The counters over the rest of the loop, from a round that the budget allows.
  do_from_adds :
      (f attempt : ℕ) (w : W) (r : Option E) (w' : W)
      → attempt ≤ budget p
      → do_from rt p retryable call f attempt w ≡ some (r, w')
      → (calls w' + attempt ≤ calls w + budget p + 1)
        × (1 < attempt → calls w' + retries w ≡ calls w + retries w')
        × (attempt ≡ 1
            → ((calls w' ≡ calls w) × (retries w' ≡ retries w))
              ⊎ (calls w' + retries w ≡ calls w + retries w' + 1))
        × (exhaustions w' ≤ exhaustions w + 1)
        × (exhaustions w < exhaustions w' → calls w' + attempt ≡ calls w + budget p + 1)
  unfolding do_from
  do_from_adds zero attempt w r w' h e = cc
  do_from_adds (suc f) attempt w r w' h e =
      let u = (round rt p retryable call attempt w).1 in
      elim (Option-cases (round rt p retryable call attempt w).0) [
        | inl q ↦ ground (arith, round_adds attempt w, do_from_adds f (attempt + 1) u r w')
        | inr (d, q) ↦ ground (arith, round_adds attempt w)
      ]

  -- When Policy.Do returns: it has made at most max(Attempts, 1) calls; each call after the first was
  -- counted as a repeat, and nothing else was; the budget was reported exhausted at most once, and
  -- only after that many calls.
  pub do_policy_counts :
      (w : W) (r : Option E) (w' : W)
      → do_policy rt p retryable call w ≡ some (r, w')
      → (calls w' ≤ calls w + budget p)
        × (((calls w' ≡ calls w) × (retries w' ≡ retries w))
            ⊎ (calls w' + retries w ≡ calls w + retries w' + 1))
        × (exhaustions w' ≤ exhaustions w + 1)
        × (exhaustions w < exhaustions w' → calls w' ≡ calls w + budget p)
  unfolding do_policy
  do_policy_counts w r w' h = ground (arith, do_from_adds (budget p) 1 w r w' (budget_pos p) h)
