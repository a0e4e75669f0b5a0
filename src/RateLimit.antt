-- ===== src/RateLimit.antt =====
-- internal/ratelimit/ratelimit.go: the counter of Valkey, the limiter and its middleware around the
-- circuit breaker. Times of the counter are milliseconds.
pub mod Windows
pub mod FailOpen
use otus_app.Base.{
  ℕ, ◌+◌, ◌/◌, Bool, true, false, List, [], ◌∷◌, ◌++◌, Option, none, some, ltb, leb, if◌then◌else◌,
}
use otus_app.Base.Int.{ℤ, pos, negsuc}
use otus_app.Text.{Text, codes, lookup, insert, is_empty}
use otus_app.Text.Trim.{trim_space}
use otus_app.Text.Split.{split}
use otus_app.Text.Decimal.{format_nat}
use otus_app.Resilience.Breaker.{Breaker, DoResult, ctx_done, err_open, ran, do_call, Outcome}

-- The keys of Valkey: the count, and the time at which the key expires.
abbrev pub Keys : Type 0
Keys = List (Text × (ℕ × ℕ))

-- An expired key does not exist.
unfoldable pub live : ℕ → Option (ℕ × ℕ) → Option (ℕ × ℕ)
live now none = none
live now (some (count, expires)) = if ltb now expires then some (count, expires) else none

unfoldable pub increment : ℕ → ℕ → Text → Option (ℕ × ℕ) → Keys → ℕ × Keys
increment now window key none keys = (1, insert key (1, now + window) keys)
increment now window key (some (count, expires)) keys =
    (count + 1, insert key (count + 1, expires) keys)

-- hitScript: INCR, and PEXPIRE when the count is 1.
unfoldable pub hit : ℕ → ℕ → Text → Keys → ℕ × Keys
hit now window key keys = increment now window key (live now (lookup key keys)) keys

-- SetLimit; a nil Limiter is not modelled, since it has no state.
unfoldable pub set_limit : ℤ → ℕ → ℕ
set_limit (pos n) limit = if ltb 0 n then n else limit
set_limit (negsuc n) limit = limit

abbrev pub first_part : List Text → Text
first_part [] = []
first_part (p ∷ ps) = p

-- clientIP; `host` is net.SplitHostPort.
unfoldable pub client_ip : (Text → Option Text) → Text → Text → Text
client_ip host forwarded remote_addr =
    if is_empty forwarded
    then elim (host remote_addr) [ none ↦ remote_addr | some h ↦ h ]
    else trim_space (first_part (split forwarded b','))

-- The key of a client in the window of the clock's second; the window is at least a second.
unfoldable pub limit_key : Text → ℕ → ℕ → Text
limit_key ip unix window_seconds = codes "rl:" ++ ip ++ b':' ∷ format_nat (unix / window_seconds)

-- What becomes of a request.
pub data Verdict : Type 0 where
  passed rejected : Verdict

abbrev pub verdict_of_count : ℕ → ℕ → Verdict
verdict_of_count limit count = if ltb limit count then rejected else passed

unfoldable pub verdict : {E : Type 0} → ℕ → DoResult E → ℕ → Verdict
verdict limit (ctx_done e) count = passed
verdict limit err_open count = passed
verdict limit (ran (some e)) count = passed
verdict limit (ran none) count = verdict_of_count limit count

abbrev pub judge :
    {E W : Type 0} → ℕ → DoResult E × (Breaker × (W × ℕ)) → Verdict × (Breaker × (W × ℕ))
judge limit (result, (b, (w, count))) = (verdict limit result count, (b, (w, count)))

-- The answer of Counter.Hit.
pub data HitResult (E : Type 0) : Type 0 where
  counted : ℕ → HitResult E
  hit_failed : E → HitResult E

module _ {E W : Type 0} (classify : Option E → Outcome) (rand : W → ℕ → ℕ) (now : W → ℕ) where
  -- The function that the breaker guards; the world carries the variable count.
  unfoldable pub store_hit : HitResult E × W → Breaker → Option E × (Breaker × (W × ℕ))
  store_hit (counted n, w) b = (none, (b, (w, n)))
  store_hit (hit_failed e, w) b = (some e, (b, (w, 0)))

  unfoldable pub guarded_hit :
      (W → HitResult E × W) → Breaker × (W × ℕ) → Option E × (Breaker × (W × ℕ))
  guarded_hit counter (b, (w, count)) = store_hit (counter w) b

  -- Middleware up to the decision; `counter` is Hit at the request's key.
  unfoldable pub middleware :
      (W → Option E) → (W → HitResult E × W) → ℕ → Breaker → W → Verdict × (Breaker × (W × ℕ))
  middleware ctx_err counter limit b w = judge limit (
      do_call classify (λ v. rand v.0) (λ v. now v.0) (λ v. ctx_err v.0) (guarded_hit counter)
        (b, (w, 0)))
