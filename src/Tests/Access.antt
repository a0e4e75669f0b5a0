-- ===== src/Tests/Access.antt =====
-- The theorems on the rate limiter and the signing keys at concrete inputs.
use otus_app.Base.{ℕ, ◌<◌, ◌≡◌, refl, [], ◌∷◌, Option, none, some, min, arith}
use otus_app.Text.{Text, codes, lookup}
use otus_app.Resilience.Breaker.{Outcome, success, failure, new_breaker, enter, do_call, admit}
use otus_app.RateLimit.{live, HitResult, counted, middleware, guarded_hit, store_hit, verdict}
use otus_app.RateLimit.Windows.{nil, cons, total_passed, total_passed-window}
use otus_app.RateLimit.FailOpen.{middleware-rejected}
use otus_app.Security.{Auth, Jwks, document, key_for}
use otus_app.Security.Keys.{Sound, key_for-Sound}

-- Three requests of a client against a limit of two.
total_passed-window_example : total_passed 2 1000 (codes "k") (0 ∷ 10 ∷ 20 ∷ []) [] ≡ min 2 3
unfolding live lookup
total_passed-window_example =
    total_passed-window 2 1000 0 (codes "k") (10 ∷ 20 ∷ []) [] refl
      (cons (omega arith) (cons (omega arith) nil))

abbrev classify : Option ℕ → Outcome
classify none = success
classify (some e) = failure

abbrev no_rand : ℕ → ℕ → ℕ
no_rand w n = 0

abbrev clock : ℕ → ℕ
clock w = w

abbrev alive : ℕ → Option ℕ
alive w = none

abbrev third_hit : ℕ → HitResult ℕ × ℕ
third_hit w = (counted 3, w)

middleware-rejected_example :
    (alive 5 ≡ none)
    × ((g : ℕ) × ((enter (clock 5) new_breaker).0 ≡ some g))
    × ((n : ℕ) × ((third_hit 5).0 ≡ counted n) × (2 < n))
unfolding middleware guarded_hit store_hit do_call enter admit new_breaker verdict
middleware-rejected_example =
    middleware-rejected classify no_rand clock alive third_hit 2 new_breaker 5 refl

abbrev plain : Text → Option Text
plain t = some t

abbrev empty_auth : Auth
empty_auth = record { keys = []; last_refresh = 0 }

abbrev one_key : Jwks
one_key =
    document (record { kty = codes "RSA"; kid = codes "k1"; n = codes "n"; e = codes "AQAB" } ∷ [])

key_for-Sound_example :
    Sound plain
      (codes "k1")
      60000000000
      one_key
      empty_auth
      (key_for plain (codes "k1") 60000000000 one_key empty_auth)
key_for-Sound_example = key_for-Sound plain (codes "k1") 60000000000 one_key empty_auth
