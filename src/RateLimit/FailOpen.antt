-- ===== src/RateLimit/FailOpen.antt =====
-- A request is refused only because of a count.
use otus_app.Base.{ℕ, ◌<◌, ◌≡◌, refl, Option, none, some, arith, Option-cases, inl, inr, ap}
use otus_app.Resilience.Breaker.{
  Breaker, DoResult, ctx_done, err_open, ran, do_call, Outcome, enter,
}
use otus_app.RateLimit.{
  rejected, verdict, HitResult, counted, hit_failed, store_hit, guarded_hit, middleware, judge,
}

verdict-rejected :
    {E : Type 0} (limit count : ℕ) (r : DoResult E)
    → verdict limit r count ≡ rejected
    → (r ≡ ran none) × (limit < count)
unfolding verdict
verdict-rejected limit count (ctx_done e) h = absurd (ground arith)
verdict-rejected limit count err_open h = absurd (ground arith)
verdict-rejected limit count (ran (some e)) h = absurd (ground arith)
verdict-rejected limit count (ran none) h = (refl, ground arith)

-- What the guarded call leaves when the breaker let it run and it returned nil.
store_hit-none :
    {E W : Type 0} (classify : Option E → Outcome) (rand : W → ℕ → ℕ) (now : W → ℕ)
    (r : HitResult E × W) (b : Breaker)
    → (store_hit classify rand now r b).0 ≡ none
    → (n : ℕ) × (r ≡ (counted n, r.1)) × (store_hit classify rand now r b ≡ (none, (b, (r.1, n))))
unfolding store_hit
store_hit-none classify rand now (counted n, w) b h = (n, refl, refl)
store_hit-none classify rand now (hit_failed e, w) b h = absurd (ground arith)

-- A call of the breaker that ran and returned nil.
do_call-ran :
    {E W : Type 0} (classify : Option E → Outcome) (rand : W → ℕ → ℕ) (now : W → ℕ)
    (ctx_err : W → Option E) (call : Breaker × W → Option E × (Breaker × W)) (b : Breaker) (w : W)
    → (do_call classify rand now ctx_err call (b, w)).0 ≡ ran none
    → (ctx_err w ≡ none)
      × ((g : ℕ) × ((enter (now w) b).0 ≡ some g))
      × ((call ((enter (now w) b).1, w)).0 ≡ none)
      × ((do_call classify rand now ctx_err call (b, w)).1.1 ≡ (call ((enter (now w) b).1, w)).1.1)
unfolding do_call
do_call-ran classify rand now ctx_err call b w h = elim (Option-cases (ctx_err w)) [
  | inr (e, p) ↦ absurd (ground arith)
  | inl p ↦ elim (Option-cases (enter (now w) b).0) [
    | inl q ↦ absurd (ground arith)
    | inr (g, q) ↦ (p, (g, q), ground arith, ground arith)
  ]
]

judge-rejected :
    {E W : Type 0} (limit : ℕ) (r : DoResult E × (Breaker × (W × ℕ)))
    → (judge limit r).0 ≡ rejected
    → (r.0 ≡ ran none) × (limit < r.1.1.1)
judge-rejected limit (result, (b, (w, count))) h = verdict-rejected limit count result h

-- The limiter rejects a request only if its context is alive, the breaker admits the call, and
-- the counter answers with a count above the limit.
pub middleware-rejected :
    {E W : Type 0} (classify : Option E → Outcome) (rand : W → ℕ → ℕ) (now : W → ℕ)
    (ctx_err : W → Option E) (counter : W → HitResult E × W) (limit : ℕ) (b : Breaker) (w : W)
    → (middleware classify rand now ctx_err counter limit b w).0 ≡ rejected
    → (ctx_err w ≡ none)
      × ((g : ℕ) × ((enter (now w) b).0 ≡ some g))
      × ((n : ℕ) × ((counter w).0 ≡ counted n) × (limit < n))
unfolding middleware guarded_hit
middleware-rejected classify rand now ctx_err counter limit b w h =
    let (r, l) =
      judge-rejected limit
        (do_call classify (λ v. rand v.0) (λ v. now v.0) (λ v. ctx_err v.0)
          (guarded_hit classify rand now counter) (b, (w, 0)))
        h in
    let (c, a, z, e) =
      do_call-ran classify (λ v. rand v.0) (λ v. now v.0) (λ v. ctx_err v.0)
        (guarded_hit classify rand now counter) b (w, 0) r in
    let (n, f, g) = store_hit-none classify rand now (counter w) (enter (now w) b).1 z in
    (c, a, (n, ap (λ o. o.0) f, ground (arith, ap (λ p. p.1) e, ap (λ o. o.1.1.1) g)))
