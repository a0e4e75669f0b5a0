-- ===== src/Tests/Retries.antt =====
-- The retries of HTTP requests at concrete inputs.
use otus_app.Base.{
  ℕ, ◌+◌, ◌-◌, ◌≤◌, ◌≡◌, refl, true, Option, none, some, [], ◌∷◌, arith, ltb, if◌then◌else◌, length,
}
use otus_app.Text.{Text, codes, text_eq}
use otus_app.Resilience.Retry.{Runtime, do_policy, do_from, round, wait, count_retry}
use otus_app.Resilience.Retry.Budget.{DoneHasError}
use otus_app.Resilience.Breaker.{new_breaker, do_call, enter, leave}
use otus_app.Resilience.Http.{
  Fault, net_error, Answer, response, failed, Request, Trip, trip_runtime, is_safe, round_trip,
  TripResult, answered, new_trip, send, send_again, send_fresh, received, is_temporary_status,
  is_transient_fault, close_body, guarded_call, guarded, conclude, attempt_once,
}
use otus_app.Resilience.Http.Bodies.{Settled, round_trip-Settled}
use otus_app.Resilience.Http.Repeats.{round_trip-once}

-- The dependency answers 503 twice, then 200; the state counts its answers, which are also the bodies.
abbrev base : Text → Option Text → ℕ → Answer × ℕ
base method body n = (response (record { status = if ltb n 2 then 503 else 200; body = n }), n + 1)

abbrev runtime : Runtime Fault ℕ
runtime = record {
  ctx_err = λ w. none;
  select = λ d w. (true, w);
  rand = λ w n. n - 1;
  retried = λ w. w;
  exhausted = λ w. w;
}

runtime-DoneHasError : DoneHasError (trip_runtime runtime)
runtime-DoneHasError d w h = absurd (ground arith)

abbrev get_request : Request
get_request = record { method = codes "GET"; body = none; get_body = none }

abbrev post_request : Request
post_request = record {
  method = codes "POST";
  body = some (codes "x");
  get_body = some (λ n. some (codes "x"));
}

-- The third answer is returned, and its body alone is open.
third_answer :
    let r = round_trip runtime (λ w. w) base get_request (λ b. b) new_breaker 0 in
    (r.0 ≡ answered (some (record { status = 200; body = 2 }))) × (r.1.1.opened ≡ 2 ∷ [])
unfolding round_trip guarded_call guarded conclude new_breaker attempt_once wait count_retry
    do_policy do_from round is_safe text_eq do_call enter leave new_trip send send_again received
    is_temporary_status close_body otus_app.Resilience.Http.is_transient
third_answer = (refl, refl)

round_trip-Settled_example :
    (let r = round_trip runtime (λ w. w) base get_request (λ b. b) new_breaker 0 in
      Settled r.0 r.1.1)
round_trip-Settled_example =
    round_trip-Settled base get_request runtime (λ w. w) runtime-DoneHasError (λ b. b) new_breaker 0

round_trip-once_example :
    length (round_trip runtime (λ w. w) base post_request (λ b. b) new_breaker 0).1.1.sent ≤ 1
round_trip-once_example =
    round_trip-once base post_request (unfold is_safe text_eq in refl) runtime (λ w. w)
      runtime-DoneHasError (λ b. b) new_breaker 0
