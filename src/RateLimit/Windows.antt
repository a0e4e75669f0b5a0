-- ===== src/RateLimit/Windows.antt =====
-- How many requests of one key pass within the life of the key.
use otus_app.Base.{
  ℕ, suc, ◌+◌, ◌-◌, ◌<◌, ◌≡◌, refl, List, [], ◌∷◌, none, some, arith, lt→ltb, if◌then◌else◌, min,
  length, ap, ◌∙◌,
}
use otus_app.Text.{Text, lookup, insert, lookup-insert, text_eq_refl}
use otus_app.RateLimit.{Keys, live, increment, hit, Verdict, passed, rejected, verdict_of_count}

abbrev pub count_passed : Verdict → ℕ → ℕ
count_passed passed n = suc n
count_passed rejected n = n

-- The number of the requests at these times that pass.
unfoldable pub total_passed : ℕ → ℕ → Text → List ℕ → Keys → ℕ
total_passed limit window key [] keys = 0
total_passed limit window key (now ∷ times) keys =
    let (count, keys') = hit now window key keys in
    count_passed (verdict_of_count limit count) (total_passed limit window key times keys')

-- All times are before this one.
pub data Before (end : ℕ) : List ℕ → Type 0 where
  nil : Before end []
  cons : {t : ℕ} {ts : List ℕ} → t < end → Before end ts → Before end (t ∷ ts)

lookup-insert_self :
    (key : Text) (v : ℕ × ℕ) (keys : Keys) → lookup key (insert key v keys) ≡ some v
lookup-insert_self key v keys =
    lookup-insert key key v keys
    ∙ ap (λ b. if b then some v else lookup key keys) (text_eq_refl key)

hit-live :
    (now window count end : ℕ) (key : Text) (keys : Keys)
    → lookup key keys ≡ some (count, end)
    → now < end
    → hit now window key keys ≡ (count + 1, insert key (count + 1, end) keys)
unfolding hit live increment
hit-live now window count end key keys h g = rw (h, lt→ltb now end g) refl

hit-first :
    (now window : ℕ) (key : Text) (keys : Keys)
    → live now (lookup key keys) ≡ none
    → hit now window key keys ≡ (1, insert key (1, now + window) keys)
unfolding hit increment
hit-first now window key keys h = rw h refl

count_passed-eq :
    (limit count n : ℕ) (rest : ℕ)
    → rest ≡ min (limit - (count + 1)) n
    → count_passed (verdict_of_count limit (count + 1)) rest ≡ min (limit - count) (suc n)
count_passed-eq limit count n rest h = ground arith

count_passed-first :
    (limit n rest : ℕ)
    → rest ≡ min (limit - 1) n
    → count_passed (verdict_of_count limit 1) rest ≡ min limit (suc n)
count_passed-first limit n rest h = ground arith

-- From a live key on, what is left of the limit passes.
total_passed-live :
    (limit window count end : ℕ) (key : Text) (times : List ℕ) (keys : Keys)
    → lookup key keys ≡ some (count, end)
    → Before end times
    → total_passed limit window key times keys ≡ min (limit - count) (length times)
unfolding total_passed
total_passed-live limit window count end key [] keys h nil = omega arith
total_passed-live limit window count end key (now ∷ times) keys h (cons g b) =
    rw (hit-live now window count end key keys h g) (
      count_passed-eq limit count (length times) _ (
        total_passed-live limit window (count + 1) end key times (insert key (count + 1, end) keys)
          (lookup-insert_self key (count + 1, end) keys) b))

-- Of the requests with one key, from the first one, at which the key does not exist, on and as
-- long as the key has not expired, exactly as many pass as the limit allows: the smaller of the
-- limit and their number.
pub total_passed-window :
    (limit window now : ℕ) (key : Text) (times : List ℕ) (keys : Keys)
    → live now (lookup key keys) ≡ none
    → Before (now + window) times
    → total_passed limit window key (now ∷ times) keys ≡ min limit (suc (length times))
unfolding total_passed
total_passed-window limit window now key times keys h b = rw (hit-first now window key keys h) (
    count_passed-first limit (length times) _ (
      total_passed-live limit window 1 (now + window) key times (insert key (1, now + window) keys)
        (lookup-insert_self key (1, now + window) keys) b))
