-- ===== src/Resilience/Http/Repeats.antt =====
-- A request that is not safe reaches the dependency at most once.
use otus_app.Base.{
  ℕ, ◌≤◌, ◌≡◌, refl, false, [], Option, none, some, arith, ltb, inl, inr, ap, Bool-cases, length,
}
use otus_app.Text.{Text}
use otus_app.Resilience.Retry.{Runtime, do_policy}
use otus_app.Resilience.Retry.Budget.{DoneHasError, do_policy_total}
use otus_app.Resilience.Retry.Rule.{Rule, do_policy-Q}
use otus_app.Resilience.Breaker.{Breaker, DoResult, ctx_done, err_open, ran}
use otus_app.Resilience.Breaker.Calls.{do_call-Returns}
use otus_app.Resilience.Http.{
  classify, HttpError, temporary, Fault, fault, other_error, Answer, response, failed, Request,
  Trip, new_trip, received, sent_trip, send, attempt_once, trip_runtime, http_policy, as_error,
  give_up, conclude, or_same, retries, guarded, guarded_call, round_trip, is_safe,
}

module _ {W : Type 0} (base : Text → Option Text → W → Answer × W) (req : Request)
    (unsafe : is_safe req ≡ false) where
  abbrev Unsent : Trip W → Type 0
  Unsent t = (t.sent ≡ []) × (t.attempt ≡ 0)

  abbrev Once : Option HttpError → Trip W → Type 0
  Once r t = length t.sent ≤ 1

  received-sent : (a : Answer) (t : Trip W) → (received a t).1.sent ≡ t.sent
  unfolding received
  received-sent (failed f) t = refl
  received-sent (response r) t = refl

  send-Once : (t : Trip W) → t.sent ≡ [] → length (send base req req.body t).1.sent ≤ 1
  unfolding send
  send-Once t e =
      let r = base req.method req.body t.world in
      let s = received-sent r.0 (sent_trip req.body r.1 t) in
      omega (arith, ap length s, ap length e)

  attempt_once-Once : (t : Trip W) → Unsent t → length (attempt_once base req t).1.sent ≤ 1
  unfolding attempt_once
  attempt_once-Once t (e, z) = elim (Bool-cases (ltb 0 t.attempt)) [
    | inl b ↦ absurd (ground arith)
    | inr b ↦ rw b (send-Once t e)
  ]

  module _ (rt : Runtime Fault W) (now : W → ℕ) (law : DoneHasError (trip_runtime rt)) where
    attempts-Rule :
        Rule (trip_runtime rt) (retries rt now base req) (attempt_once base req) Unsent Once
    attempts-Rule = record {
      retried = λ t h. h;
      exhausted = λ e t h. h;
      paused = λ d t h. h;
      called = attempt_once-Once;
      again = λ e t r h. absurd (ground arith);
      ended = λ e t h k. omega (arith, ap length (h.0));
    }

    policy-Once :
        (t : Trip W)
        → Unsent t
        → (let r = or_same (some (fault (other_error 0))) t (
              do_policy
                (trip_runtime rt)
                http_policy
                (retries rt now base req)
                (attempt_once base req)
                t) in
            length r.1.sent ≤ 1)
    policy-Once t h =
        let (r, e) =
          do_policy_total (trip_runtime rt) http_policy (retries rt now base req)
            (attempt_once base req) t in
        rw e (
          do_policy-Q (trip_runtime rt) http_policy (retries rt now base req)
            (attempt_once base req) Unsent Once law attempts-Rule t r.0 r.1 h e)

    conclude-sent : (d : DoResult HttpError) (t : Trip W) → (conclude req d t).1.sent ≡ t.sent
    unfolding conclude give_up
    conclude-sent (ran none) t = refl
    conclude-sent (ran (some temporary)) t = refl
    conclude-sent (ran (some (fault f))) t = refl
    conclude-sent (ctx_done e) t = refl
    conclude-sent err_open t = refl

    new_trip-Unsent : (w : W) → Unsent (new_trip w)
    unfolding new_trip
    new_trip-Unsent w = (refl, refl)

    new_trip-Once : (w : W) → length (new_trip w).sent ≤ 1
    new_trip-Once w = omega (arith, ap length ((new_trip-Unsent w).0))

    concluded :
        (d : DoResult HttpError) (t : Trip W)
        → length t.sent ≤ 1
        → length (conclude req d t).1.sent ≤ 1
    concluded d t h = rw (conclude-sent d t) h

    -- A request that is not safe, such as a POST or one whose body cannot be read again, is sent
    -- at most once by RoundTrip, whatever is answered, with a context that has an error once it
    -- is done.
    pub round_trip-once :
        (meanwhile : Breaker → Breaker) (b : Breaker) (w : W)
        → length (round_trip rt now base req meanwhile b w).1.1.sent ≤ 1
    unfolding round_trip guarded_call guarded
    round_trip-once meanwhile b w =
        elim (do_call-Returns classify (λ t. rt.rand t.world) (λ t. now t.world)
          (λ t. as_error (rt.ctx_err t.world)) (guarded rt now base req meanwhile) b (new_trip w)) [
            | inl (e, h) ↦ rw h (concluded (ctx_done e) (new_trip w) (new_trip-Once w))
            | inr (inl (b', h)) ↦ rw h (concluded err_open (new_trip w) (new_trip-Once w))
            | inr (inr (b₁, b₂, h)) ↦
                rw h (concluded (ran _) _ (policy-Once (new_trip w) (new_trip-Unsent w)))
          ]
