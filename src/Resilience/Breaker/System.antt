-- ===== src/Resilience/Breaker/System.antt =====
-- A breaker shared by many callers: any interleaving of arrivals, answers and the passing of time.
-- Each critical section of breaker.go holds the mutex, so it is one step.
use otus_app.Base.{ℕ, zero, suc, ◌+◌, none, some, List, [], ◌∷◌, ◌==◌, if◌then◌else◌, get_elem?}
use otus_app.Resilience.Breaker.{Breaker, Outcome, new_breaker, enter, leave}

pub data Event : Type 0 where
  arrive : Event  -- a call of Do
  answer : ℕ → Outcome → ℕ → Event  -- the i-th call in flight returns; the draw for the pause
  elapse : ℕ → Event

pub record System : Type 0 where
  pub breaker : Breaker
  pub now : ℕ
  pub flight : List ℕ  -- the generations of the admitted calls that have not returned

abbrev pub start : ℕ → System
start now = record { breaker = new_breaker; now = now; flight = [] }

-- The list without its i-th entry.
unfoldable pub remove_at : ℕ → List ℕ → List ℕ
remove_at i [] = []
remove_at zero (g ∷ gs) = gs
remove_at (suc i) (g ∷ gs) = g ∷ remove_at i gs

unfoldable pub step : Event → System → System
step arrive s =
    let (g, b) = enter s.now s.breaker in
    elim g [
      | none ↦ record s { breaker = b }
      | some g ↦ record s { breaker = b; flight = g ∷ s.flight }
    ]
step (answer i o r) s = elim (get_elem? s.flight i) [
  | none ↦ s
  | some g ↦ record s {
    breaker = leave (λ _. r) s.now g o s.breaker;
    flight = remove_at i s.flight;
  }
]
step (elapse d) s = record s { now = s.now + d }

unfoldable pub run : List Event → System → System
run [] s = s
run (e ∷ es) s = run es (step e s)

-- How many calls of a generation are in flight.
unfoldable pub count : ℕ → List ℕ → ℕ
count g [] = 0
count g (x ∷ xs) = (if x == g then 1 else 0) + count g xs
