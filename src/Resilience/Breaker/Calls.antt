-- ===== src/Resilience/Breaker/Calls.antt =====
-- The three ways in which Breaker.Do returns.
use otus_app.Base.{ℕ, ◌≡◌, Option, ◌⊎◌, inl, inr, Option-cases, arith}
use otus_app.Resilience.Breaker.{
  Breaker, DoResult, ctx_done, err_open, ran, do_call, Outcome, enter,
}

module _ {E W : Type 0} (classify : Option E → Outcome) (rand : W → ℕ → ℕ) (now : W → ℕ)
    (ctx_err : W → Option E) (call : Breaker × W → Option E × (Breaker × W)) where
  -- Without the call the world is as before; else it is as the call left it.
  abbrev pub Returns : Breaker → W → DoResult E × (Breaker × W) → Type 0
  Returns b w r =
      ((e : E) × (r ≡ (ctx_done e, (b, w))))
      ⊎ ((b' : Breaker) × (r ≡ (err_open, (b', w))))
      ⊎ ((b₁ b₂ : Breaker) × (r ≡ (ran (call (b₁, w)).0, (b₂, (call (b₁, w)).1.1))))

  pub do_call-Returns :
      (b : Breaker) (w : W) → Returns b w (do_call classify rand now ctx_err call (b, w))
  unfolding do_call
  do_call-Returns b w = elim (Option-cases (ctx_err w)) [
    | inr (e, p) ↦ inl (e, ground arith)
    | inl p ↦ elim (Option-cases (enter (now w) b).0) [
      | inl q ↦ inr (inl ((do_call classify rand now ctx_err call (b, w)).1.0, ground arith))
      | inr (g, q) ↦ inr (
          inr (
            (enter (now w) b).1,
            (do_call classify rand now ctx_err call (b, w)).1.0,
            ground arith,
          ))
    ]
  ]
