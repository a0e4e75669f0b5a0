-- ===== src/Resilience/Retry.antt =====
-- Policy.Do and Wait of internal/resilience/retry.go, over an abstract world: the context, the timer,
-- the metrics and what the retried call touches are parts of it.
pub mod Budget
pub mod Rule
use otus_app.Base.{
  ℕ, zero, suc, ◌+◌, ◌≤◌, Bool, true, false, ◌&&◌, not, Option, none, some, leb, ltb, if◌then◌else◌,
}
use otus_app.Base.Int.{ℤ, pos}
use otus_app.Resilience.Jitter.{at_least, jitter}

pub record Policy : Type 0 where
  pub attempts : ℤ
  pub base : ℤ
  pub limit : ℤ

-- What the loop does to the world outside.
pub record Runtime (E W : Type 0) : Type 0 where
  pub ctx_err : W → Option E  -- ctx.Err()
  pub select : ℕ → W → Bool × W  -- the select of Wait: true if the timer fired first
  pub rand : W → ℕ → ℕ  -- rand.Int64N
  pub retried : W → W  -- the metrics of metrics.go
  pub exhausted : W → W

-- max(p.Attempts, 1)
abbrev pub budget : Policy → ℕ
budget p = at_least 1 p.attempts

abbrev pub is_none {ℓ} : {A : Type ℓ} → Option A → Bool
is_none none = true
is_none (some _) = false

module _ {E W : Type 0} (rt : Runtime E W) where
  unfoldable pub wait : ℕ → W → Bool × W
  wait delay w = let (fired, w') = rt.select delay w in (fired && is_none (rt.ctx_err w'), w')

  module _ (p : Policy) (retryable : E → Bool) (call : W → Option E × W) where
    -- The metric of a repeated attempt.
    unfoldable pub count_retry : ℕ → W → W
    count_retry attempt w = if ltb 1 attempt then rt.retried w else w

    -- From a failed call to the pause: `some` ends the loop, `none` goes on.
    unfoldable pub after_failure : ℕ → E → W → Option (Option E) × W
    unfolding wait
    after_failure attempt e w =
        if not (retryable e) then (some (some e), w) else elim (rt.ctx_err w) [
          | some c ↦ (some (some c), w)
          | none ↦
              if leb (budget p) attempt
              then (some (some e), rt.exhausted w)
              else let (ok, w') = wait (jitter (rt.rand w) (pos attempt) p.base p.limit) w in
                if ok then (none, w') else (some (rt.ctx_err w'), w')
        ]

    -- One round of the loop.
    unfoldable pub round : ℕ → W → Option (Option E) × W
    unfolding count_retry after_failure
    round attempt w = elim (rt.ctx_err w) [
      | some c ↦ (some (some c), w)
      | none ↦
          let (err, w') = call (count_retry attempt w) in
          elim err [ none ↦ (some none, w') | some e ↦ after_failure attempt e w' ]
    ]

    -- The loop on fuel; `none` means that the fuel ran out.
    unfoldable pub do_from : ℕ → ℕ → W → Option (Option E × W)
    do_from zero attempt w = none
    do_from (suc f) attempt w =
        let (done, w') = round attempt w in
        elim done [ some r ↦ some (r, w') | none ↦ do_from f (attempt + 1) w' ]

    -- Policy.Do: one round for each attempt of the budget is enough.
    unfoldable pub do_policy : W → Option (Option E × W)
    do_policy w = do_from (budget p) 1 w
