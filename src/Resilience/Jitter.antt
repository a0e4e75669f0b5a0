-- ===== src/Resilience/Jitter.antt =====
-- Jitter and Backoff of internal/resilience/retry.go. Durations are nanoseconds; a duration and an
-- attempt that the caller gives are signed, what is computed from them is not.
use native.Mathlib.Nat.{pow-suc}
use otus_app.Base.{
  ℕ, zero, suc, ◌+◌, ◌-◌, ◌*◌, ◌/◌, ◌^◌, ◌≤◌, ◌<◌, min, max, ◌≡◌, arith, ltb, if◌then◌else◌,
  Bool-cases, inl, inr, ltb→lt, ltb→ge, ap, ◌∙◌,
}
use otus_app.Base.Int.{ℤ, pos, negsuc}

abbrev pub millisecond : ℕ
millisecond = 1_000_000

abbrev pub second : ℕ
second = 1_000_000_000

-- max(a, low), for a low end that is not negative.
abbrev pub at_least : ℕ → ℤ → ℕ
at_least low (pos n) = max n low
at_least low (negsuc n) = low

-- How often `for n := 1; n < attempt; n++` can go round.
abbrev pub rounds : ℤ → ℕ
rounds (pos n) = n - 1
rounds (negsuc n) = 0

-- The loop: `k` more rounds are allowed by the attempt.
unfoldable pub grow : ℕ → ℕ → ℕ → ℕ
grow zero limit delay = delay
grow (suc k) limit delay =
    let rest = grow k limit (delay * 2) in
    if ltb delay limit then (if ltb (limit / 2) delay then limit else rest) else delay

-- The delay before the random part.
unfoldable pub full_delay : ℤ → ℤ → ℤ → ℕ
full_delay attempt base limit =
    let low = at_least 1 base in grow (rounds attempt) (at_least low limit) low

-- `rand n` is what rand.Int64N(n) returns.
unfoldable pub jitter : (ℕ → ℕ) → ℤ → ℤ → ℤ → ℕ
unfolding full_delay
jitter rand attempt base limit =
    let delay = full_delay attempt base limit in let half = delay / 2 in half + rand (delay - half)

unfoldable pub backoff : (ℕ → ℕ) → ℤ → ℕ
backoff rand attempt = jitter rand attempt (pos second) (pos (30 * second))

-- rand.Int64N: a number below its argument, which is positive (it panics at 0).
abbrev pub IsRandom : (ℕ → ℕ) → Type 0
IsRandom rand = (n : ℕ) → 0 < n → rand n < n

pub grow_capped : (k limit delay : ℕ) → delay ≤ limit → limit ≤ delay → grow k limit delay ≡ limit
unfolding grow
grow_capped zero limit delay h l = omega arith
grow_capped (suc k) limit delay h l = ground arith

twice_pow : (k d : ℕ) → d * 2 * 2 ^ k ≡ d * 2 ^ suc k
twice_pow k d = rw (pow-suc) (grind arith)

pow_pos : (k : ℕ) → 1 ≤ 2 ^ k
pow_pos zero = omega arith
pow_pos (suc k) = rw (pow-suc) (omega (arith, pow_pos k))

twice_le : (k d : ℕ) → d * 2 ≤ d * 2 ^ suc k
twice_le k d = rw (← twice_pow k d) (grind (arith, pow_pos k))

-- The loop never passes the limit, and computes the doubled delay cut at it.
pub grow-eq-min :
    (k limit delay : ℕ) → 0 < delay → delay ≤ limit → grow k limit delay ≡ min (delay * 2 ^ k) limit
unfolding grow
grow-eq-min zero limit delay p h = omega arith
grow-eq-min (suc k) limit delay p h = elim (Bool-cases (ltb delay limit)) [
  | inr full ↦ rw full (omega (arith, twice_le k delay, ltb→ge delay limit full))
  | inl room ↦ elim (Bool-cases (ltb (limit / 2) delay)) [
    | inl past ↦ rw (room, past) (omega (arith, twice_le k delay, ltb→lt (limit / 2) delay past))
    | inr under ↦
        rw (room, under)
          (grow-eq-min k limit (delay * 2) (omega arith)
              (omega (arith, ltb→ge (limit / 2) delay under))
            ∙ ap (λ m. min m limit) (twice_pow k delay))
  ]
]

pub at_least_low : (low : ℕ) (a : ℤ) → low ≤ at_least low a
at_least_low low (pos n) = omega arith
at_least_low low (negsuc n) = omega arith

-- The delay is the base, doubled for each attempt after the first and cut at the limit.
pub full_delay-eq-min :
    (attempt base limit : ℤ)
    → full_delay attempt base limit
      ≡ min (at_least 1 base * 2 ^ rounds attempt) (at_least (at_least 1 base) limit)
unfolding full_delay
full_delay-eq-min attempt base limit =
    grow-eq-min (rounds attempt) (at_least (at_least 1 base) limit) (at_least 1 base)
      (at_least_low 1 base) (at_least_low (at_least 1 base) limit)

full_delay_pos : (attempt base limit : ℤ) → 0 < full_delay attempt base limit
full_delay_pos attempt base limit =
    let low = at_least 1 base in
    let high = at_least (at_least 1 base) limit in
    rw (full_delay-eq-min attempt base limit) (
      min_pos (low * 2 ^ rounds attempt) high
        (grind (arith, pow_pos (rounds attempt), at_least_low 1 base))
        (omega (arith, at_least_low 1 base, at_least_low (at_least 1 base) limit)))
  where
    min_pos : (a b : ℕ) → 0 < a → 0 < b → 0 < min a b
    min_pos a b h k = omega arith

-- For every attempt, base and limit, and whatever is drawn: the delay lies between half of the
-- doubled and capped base and that whole, which it does not reach, and rand.Int64N gets an argument
-- that it accepts.
pub jitter_bounds :
    (rand : ℕ → ℕ) (attempt base limit : ℤ)
    → IsRandom rand
    → let cap = min (at_least 1 base * 2 ^ rounds attempt) (at_least (at_least 1 base) limit) in
      (cap / 2 ≤ jitter rand attempt base limit)
      × (jitter rand attempt base limit < cap)
      × (0 < cap - cap / 2)
unfolding jitter
jitter_bounds rand attempt base limit h =
    let d = full_delay attempt base limit in
    let p = full_delay_pos attempt base limit in
    rw (← full_delay-eq-min attempt base limit)
      (span d (rand (d - d / 2)) p (h (d - d / 2) (omega arith)))
  where
    span :
        (d r : ℕ) → 0 < d → r < d - d / 2 → (d / 2 ≤ d / 2 + r) × (d / 2 + r < d) × (0 < d - d / 2)
    span d r p q = omega arith

-- The pause of every attempt, also one that is not positive, is at least half a second and less than
-- thirty seconds.
pub backoff_bounds :
    (rand : ℕ → ℕ) (attempt : ℤ)
    → IsRandom rand
    → (500 * millisecond ≤ backoff rand attempt) × (backoff rand attempt < 30 * second)
unfolding backoff
backoff_bounds rand attempt h =
    let (low, high, _) = jitter_bounds rand attempt (pos second) (pos (30 * second)) h in
    let q = pow_pos (rounds attempt) in (omega arith, omega arith)
