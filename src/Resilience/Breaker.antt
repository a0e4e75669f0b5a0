-- ===== src/Resilience/Breaker.antt =====
-- internal/resilience/breaker.go. Times are nanoseconds. The metrics of metrics.go that the breaker
-- writes are fields of the record. `int` failures and the uint64 generation are held as numbers;
-- the generation's wrap is written out.
pub mod System
pub mod Probe
pub mod Recovery
pub mod Calls
use otus_app.Base.{
  ℕ, ◌+◌, ◌*◌, ◌%◌, ◌^◌, Bool, true, false, ◌||◌, Option, none, some, List, [], ◌∷◌, leb, ltb, ◌==◌,
  if◌then◌else◌,
}
use otus_app.Base.Int.{pos}
use otus_app.Resilience.Jitter.{jitter, second}

pub data State : Type 0 where
  closed is_open half_open : State

-- The String method, as a number for the gauge and the labels.
abbrev pub state_code : State → ℕ
state_code closed = 0
state_code is_open = 1
state_code half_open = 2

-- What a call answered: nil, context.Canceled (also wrapped), or any other error.
pub data Outcome : Type 0 where
  success canceled failure : Outcome

pub record Breaker : Type 0 where
  pub state : State
  pub failures : ℕ
  pub generation : ℕ
  pub probe : Bool
  pub until : ℕ
  -- metrics: the gauge of the state, the transitions (latest first), the trips, and the calls by result
  pub gauge : ℕ
  pub transitions : List (State × State)
  pub trips : ℕ
  pub rejected : ℕ
  pub answered : List Outcome

unfoldable pub new_breaker : Breaker
new_breaker = record {
  state = closed;
  failures = 0;
  generation = 0;
  probe = false;
  until = 0;
  gauge = 0;
  transitions = [];
  trips = 0;
  rejected = 0;
  answered = [];
}

unfoldable pub transition : State → Breaker → Breaker
transition next b = record b {
  transitions = (b.state, next) ∷ b.transitions;
  state = next;
  generation = (b.generation + 1) % 2 ^ 64;
  gauge = state_code next;
}

-- The second half of `admit`: in the half-open state one probe is let through.
unfoldable pub admit_probe : Breaker → Option ℕ × Breaker
admit_probe b = if b.probe then (none, b) else (some b.generation, record b { probe = true })

admit_in : State → ℕ → Breaker → Option ℕ × Breaker
unfolding transition admit_probe
admit_in closed now b = (some b.generation, b)
admit_in is_open now b = if ltb now b.until then (none, b) else admit_probe (transition half_open b)
admit_in half_open now b = admit_probe b

-- `none` is a refusal; `some` carries the generation of the admitted call.
unfoldable pub admit : ℕ → Breaker → Option ℕ × Breaker
unfolding admit_in
admit now b = admit_in b.state now b

abbrev is_half_open : State → Bool
is_half_open half_open = true
is_half_open _ = false

-- The trip after a failure that counts.
unfoldable pub trip : (ℕ → ℕ) → ℕ → Breaker → Breaker
unfolding transition
trip rand now b =
    let ten = pos (10 * second) in
    let b' = transition is_open (record b { until = now + jitter rand (pos 1) ten ten }) in
    record b' { trips = b'.trips + 1 }

settle : (ℕ → ℕ) → ℕ → Outcome → Breaker → Breaker
unfolding transition trip
settle rand now canceled b = b
settle rand now success b =
    let b' = record b { failures = 0 } in if is_half_open b.state then transition closed b' else b'
settle rand now failure b =
    let b' = record b { failures = b.failures + 1 } in
    if is_half_open b.state || leb 3 (b.failures + 1) then trip rand now b' else b'

-- An answer to a call of an older generation changes nothing.
unfoldable pub complete : (ℕ → ℕ) → ℕ → ℕ → Outcome → Breaker → Breaker
unfolding settle
complete rand now g o b =
    if g == b.generation then settle rand now o (record b { probe = false }) else b

-- The part of Do before the call.
unfoldable pub enter : ℕ → Breaker → Option ℕ × Breaker
unfolding admit
enter now b =
    let (g, b') = admit now b in
    elim g [ none ↦ (none, record b' { rejected = b'.rejected + 1 }) | some g ↦ (some g, b') ]

-- The part of Do after the call.
unfoldable pub leave : (ℕ → ℕ) → ℕ → ℕ → Outcome → Breaker → Breaker
unfolding complete
leave rand now g o b = complete rand now g o (record b { answered = o ∷ b.answered })

-- What Do returns: the context's error, ErrOpen, or the answer of the call.
pub data DoResult (E : Type 0) : Type 0 where
  ctx_done : E → DoResult E
  err_open : DoResult E
  ran : Option E → DoResult E

module _ {E W : Type 0} (classify : Option E → Outcome) (rand : W → ℕ → ℕ) (now : W → ℕ) where
  -- Breaker.Do. The call may change the breaker too: other goroutines run meanwhile.
  unfoldable pub do_call :
      (W → Option E)
      → (Breaker × W → Option E × (Breaker × W))
      → Breaker × W
      → DoResult E × (Breaker × W)
  unfolding enter leave
  do_call ctx_err call (b, w) = elim (ctx_err w) [
    | some e ↦ (ctx_done e, (b, w))
    | none ↦
        let (admitted, b₁) = enter (now w) b in
        elim admitted [
          | none ↦ (err_open, (b₁, w))
          | some g ↦
              let (err, (b₂, w₂)) = call (b₁, w) in
              (ran err, (leave (rand w₂) (now w₂) g (classify err) b₂, w₂))
        ]
  ]
