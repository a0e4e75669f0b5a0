-- ===== src/Resilience/Retry/Rule.antt =====
-- A rule for Policy.Do: what holds before each call, and what a call and its error leave, hold for the
-- whole loop.
use otus_app.Base.{
  ℕ, zero, suc, ◌+◌, ◌≡◌, refl, Bool, true, false, Option, none, some, arith, leb, ltb, subst, sym,
  ◌≢◌, Option-cases, inl, inr, Bool-cases,
}
use otus_app.Base.Int.{pos}
use otus_app.Resilience.Jitter.{jitter}
use otus_app.Resilience.Retry.{
  Policy, Runtime, count_retry, after_failure, round, do_from, do_policy, budget, wait,
}
use otus_app.Resilience.Retry.Budget.{DoneHasError}

-- P holds wherever the loop may call, Q of a result and the world that it is returned in.
pub record Rule {E W : Type 0} (rt : Runtime E W) (retryable : E → Bool) (call : W → Option E × W)
    (P : W → Type 0) (Q : Option E → W → Type 0) : Type 0 where
  pub retried : (w : W) → P w → P (rt.retried w)
  pub exhausted : (e : E) (w : W) → Q (some e) w → Q (some e) (rt.exhausted w)
  pub paused : (d : ℕ) (w : W) → P w → P (rt.select d w).1
  pub called : (w : W) → P w → Q (call w).0 (call w).1
  pub again : (e : E) (w : W) → retryable e ≡ true → Q (some e) w → P w
  pub ended : (e : E) (w : W) → P w → rt.ctx_err w ≡ some e → Q (some e) w

module _ {E W : Type 0} (rt : Runtime E W) (p : Policy) (retryable : E → Bool)
    (call : W → Option E × W) (P : W → Type 0) (Q : Option E → W → Type 0) (law : DoneHasError rt)
    (rule : Rule rt retryable call P Q) where
  -- A round ends with a result that satisfies Q, or goes on in a world that satisfies P.
  abbrev Ends : Option (Option E) × W → Type 0
  Ends (none, w) = P w
  Ends (some r, w) = Q r w

  -- From an equation of the outcome.
  Ends-eq : {o o' : Option (Option E) × W} → o ≡ o' → Ends o' → Ends o
  Ends-eq e h = subst Ends (sym e) h

  -- After a pause that was cut short the context has an error.
  wait-cut : (d : ℕ) (w : W) → (wait rt d w).0 ≡ false → rt.ctx_err (rt.select d w).1 ≢ none
  unfolding wait
  wait-cut d w h = elim (Bool-cases (rt.select d w).0) [
    | inl fired ↦ λ n. ground arith
    | inr cut ↦ law d w cut
  ]

  wait-world : (d : ℕ) (w : W) → (wait rt d w).1 ≡ (rt.select d w).1
  unfolding wait
  wait-world d w = refl

  after_pause :
      (attempt : ℕ) (e : E) (w : W)
      → retryable e ≡ true
      → rt.ctx_err w ≡ none
      → leb (budget p) attempt ≡ false
      → Q (some e) w
      → Ends (after_failure rt p retryable call attempt e w)
  unfolding after_failure
  after_pause attempt e w r c l q =
      let d = jitter (rt.rand w) (pos attempt) p.base p.limit in
      let moved = rule.paused d w (rule.again e w r q) in
      elim (Bool-cases (wait rt d w).0) [
        | inl ok ↦ Ends-eq {o' = (none, (rt.select d w).1)} (ground (arith, wait-world d w)) moved
        | inr cut ↦ elim (Option-cases (rt.ctx_err (rt.select d w).1)) [
          | inl n ↦ absurd (wait-cut d w cut n)
          | inr (x, h) ↦
              Ends-eq {o' = (some (some x), (rt.select d w).1)} (ground (arith, wait-world d w))
                (rule.ended x (rt.select d w).1 moved h)
        ]
      ]

  after_failure-Ends :
      (attempt : ℕ) (e : E) (w : W)
      → Q (some e) w
      → Ends (after_failure rt p retryable call attempt e w)
  unfolding after_failure
  after_failure-Ends attempt e w q = elim (Bool-cases (retryable e)) [
    | inr r ↦ Ends-eq {o' = (some (some e), w)} (ground arith) q
    | inl r ↦ elim (Option-cases (rt.ctx_err w)) [
      | inr (x, h) ↦
          Ends-eq {o' = (some (some x), w)} (ground arith) (rule.ended x w (rule.again e w r q) h)
      | inl c ↦ elim (Bool-cases (leb (budget p) attempt)) [
        | inl l ↦
            Ends-eq {o' = (some (some e), rt.exhausted w)} (ground arith) (rule.exhausted e w q)
        | inr l ↦ after_pause attempt e w r c l q
      ]
    ]
  ]

  count_retry-P : (attempt : ℕ) (w : W) → P w → P (count_retry rt p retryable call attempt w)
  unfolding count_retry
  count_retry-P attempt w h = elim (Bool-cases (ltb 1 attempt)) [
    | inl b ↦ rw b (rule.retried w h)
    | inr b ↦ rw b h
  ]

  round-Ends : (attempt : ℕ) (w : W) → P w → Ends (round rt p retryable call attempt w)
  unfolding round
  round-Ends attempt w h = elim (Option-cases (rt.ctx_err w)) [
    | inr (x, e) ↦ Ends-eq {o' = (some (some x), w)} (ground arith) (rule.ended x w h e)
    | inl e ↦
        let u = count_retry rt p retryable call attempt w in
        let q = rule.called u (count_retry-P attempt w h) in
        elim (Option-cases (call u).0) [
          | inl f ↦
              Ends-eq {o' = (some none, (call u).1)} (ground arith)
                (subst (λ o. Q o (call u).1) f q)
          | inr (x, f) ↦
              Ends-eq {o' = after_failure rt p retryable call attempt x (call u).1} (ground arith)
                (after_failure-Ends attempt x (call u).1 (subst (λ o. Q o (call u).1) f q))
        ]
  ]

  do_from-Q :
      (f attempt : ℕ) (w : W) (r : Option E) (w' : W)
      → P w
      → do_from rt p retryable call f attempt w ≡ some (r, w')
      → Q r w'
  unfolding do_from
  do_from-Q zero attempt w r w' h e = absurd (ground arith)
  do_from-Q (suc f) attempt w r w' h e =
      next (round rt p retryable call attempt w) (round-Ends attempt w h) refl
        (λ w₁ k. do_from-Q f (attempt + 1) w₁ r w' k)
    where
      next :
          (o : Option (Option E) × W)
          → Ends o
          → round rt p retryable call attempt w ≡ o
          → ((w₁ : W)
              → P w₁
              → do_from rt p retryable call f (attempt + 1) w₁ ≡ some (r, w')
              → Q r w')
          → Q r w'
      next (some s, w₁) k eq ih =
          let both : (r ≡ s) × (w' ≡ w₁) = ground arith in
          subst (λ s. Q s w') (sym both.0) (subst (Q s) (sym both.1) k)
      next (none, w₁) k eq ih = ih w₁ k (ground arith)

  pub do_policy-Q :
      (w : W) (r : Option E) (w' : W)
      → P w
      → do_policy rt p retryable call w ≡ some (r, w')
      → Q r w'
  unfolding do_policy
  do_policy-Q w r w' h e = do_from-Q (budget p) 1 w r w' h e
