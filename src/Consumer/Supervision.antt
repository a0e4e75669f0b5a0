-- ===== src/Consumer/Supervision.antt =====
-- The supervisor keeps reading while it may, closes what it opens, and pauses between the rounds.
use otus_app.Base.{
  ℕ, ◌+◌, ◌*◌, ◌≤◌, ◌<◌, ◌≡◌, refl, Bool, true, false, List, [], ◌∷◌, Option, none, some, arith,
  length, ap,
}
use otus_app.Base.Int.{pos}
use otus_app.Messaging.{MessageCreated}
use otus_app.Resilience.Jitter.{second, millisecond, IsRandom, backoff_bounds}
use otus_app.Consumer.{Round, Supervisor, count_restart, run_reader, pause, supervise, after_round}

-- All pauses lie in Backoff's range.
unfoldable pub AreBackoffs : List ℕ → Type 0
AreBackoffs [] = Unit {0}
AreBackoffs (p ∷ ps) = ((500 * millisecond ≤ p) × (p < 30 * second)) × AreBackoffs ps

-- No reader is left open, and all pauses are backoffs.
abbrev pub IsTidy : {W : Type 0} → Supervisor W → Type 0
IsTidy s = (s.closed ≡ s.opened) × AreBackoffs s.pauses

abbrev pub opened_by : {E : Type 0} → Option E → ℕ
opened_by none = 1
opened_by (some e) = 0

module _ {E W : Type 0} where
  -- The rounds of a context that stays alive.
  unfoldable pub StayAlive : List (Round E W) → Type 0
  StayAlive [] = Unit {0}
  StayAlive (r ∷ rs) = (r.alive ≡ true) × (r.alive_after ≡ true) × (r.waited ≡ true) × StayAlive rs

  -- The rounds in which the factory gives a reader.
  unfoldable pub readers : List (Round E W) → ℕ
  readers [] = 0
  readers (r ∷ rs) = opened_by r.start + readers rs

after_round-IsTidy :
    {W : Type 0} (a b c : Bool) (s x p r : Supervisor W)
    → IsTidy s
    → IsTidy x
    → IsTidy p
    → IsTidy r
    → IsTidy (after_round a b c s x p r)
after_round-IsTidy false b c s x p r hs hx hp hr = hs
after_round-IsTidy true false c s x p r hs hx hp hr = hx
after_round-IsTidy true true false s x p r hs hx hp hr = hp
after_round-IsTidy true true true s x p r hs hx hp hr = hr

after_round_on :
    {S : Type 0} (a b c : Bool) (s x p r : S)
    → a ≡ true
    → b ≡ true
    → c ≡ true
    → after_round a b c s x p r ≡ r
after_round_on a b c s x p r h k l = rw (h, k, l) refl

module _ {E W : Type 0} (rand : ℕ → ℕ) (handle : MessageCreated → W → Option E × W)
    (random : IsRandom rand) where
  run_reader-IsTidy :
      (r : Round E W) (o : Option E) (s : Supervisor W)
      → IsTidy s
      → IsTidy (run_reader handle r o (count_restart s))
  unfolding run_reader count_restart
  run_reader-IsTidy r (some e) s h = h
  run_reader-IsTidy r none s (e, p) = (rw e refl, p)

  pause-IsTidy : (s : Supervisor W) → IsTidy s → IsTidy (pause rand s)
  unfolding pause AreBackoffs
  pause-IsTidy s (e, p) = (e, (backoff_bounds rand (pos (s.attempt + 1)) random, p))

  -- Whatever the factory, the readers and the handler do, supervise closes every reader that it
  -- opens, and every pause that it asks for is at least half a second and less than thirty
  -- seconds, for a random source within its bound.
  pub supervise-IsTidy :
      (rs : List (Round E W)) (s : Supervisor W) → IsTidy s → IsTidy (supervise rand handle rs s)
  unfolding supervise
  supervise-IsTidy [] s h = h
  supervise-IsTidy (r ∷ rs) s h =
      let after = run_reader-IsTidy r r.start s h in
      let paused = pause-IsTidy (run_reader handle r r.start (count_restart s)) after in
      after_round-IsTidy r.alive r.alive_after r.waited _ _ _ _ h after paused
        (supervise-IsTidy rs _ paused)

  opened_after :
      (r : Round E W) (o : Option E) (s : Supervisor W)
      → (run_reader handle r o (count_restart s)).opened ≡ s.opened + opened_by o
  unfolding run_reader count_restart
  opened_after r none s = refl
  opened_after r (some e) s = omega arith

  pauses_after :
      (r : Round E W) (o : Option E) (s : Supervisor W)
      → (run_reader handle r o (count_restart s)).pauses ≡ s.pauses
  unfolding run_reader count_restart
  pauses_after r none s = refl
  pauses_after r (some e) s = refl

  -- As long as the context lives, supervise goes on after every failure: it reads in each round
  -- in which the factory gives a reader, and pauses once after each round.
  pub supervise-alive :
      (rs : List (Round E W)) (s : Supervisor W)
      → StayAlive rs
      → (let s' = supervise rand handle rs s in
          (s'.opened ≡ s.opened + readers rs) × (length s'.pauses ≡ length s.pauses + length rs))
  unfolding supervise StayAlive readers pause
  supervise-alive [] s h = (omega arith, omega arith)
  supervise-alive (r ∷ rs) s (a, b, c, h) =
      let after = run_reader handle r r.start (count_restart s) in
      let on =
        after_round_on r.alive r.alive_after r.waited s after (pause rand after)
          (supervise rand handle rs (pause rand after)) a b c in
      let (o, p) = supervise-alive rs (pause rand after) h in
      (
        omega (arith, ap (λ t. t.opened) on, o, opened_after r r.start s),
        omega (arith, ap (λ t. length t.pauses) on, p, ap length (pauses_after r r.start s)),
      )
