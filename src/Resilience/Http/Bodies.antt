-- ===== src/Resilience/Http/Bodies.antt =====
-- RoundTrip leaves no body of a response open but that of the response it returns.
use otus_app.Base.{
  ℕ, ◌<◌, ◌≡◌, refl, [], ◌∷◌, Option, none, some, arith, ltb, inl, inr, ◌⊎◌, ap, Bool-cases,
}
use otus_app.Text.{Text}
use otus_app.Resilience.Retry.{Runtime, do_policy}
use otus_app.Resilience.Retry.Budget.{DoneHasError, do_policy_total}
use otus_app.Resilience.Retry.Rule.{Rule, do_policy-Q}
use otus_app.Resilience.Breaker.{Breaker, ran}
use otus_app.Resilience.Breaker.Calls.{do_call-Returns}
use otus_app.Resilience.Http.{
  classify, HttpError, Fault, temporary, fault, other_error, Response, Answer, response, failed,
  Request, Trip, new_trip, close_body, close_answer, received, sent_trip, send, send_again,
  send_fresh, attempt_once, trip_runtime, http_policy, as_error, TripResult, answered, refused,
  trip_failed, give_up, conclude, or_same, retries, guarded, guarded_call, round_trip,
  is_temporary_status,
}

close_body_one : (b : ℕ) → close_body b (b ∷ []) ≡ []
unfolding close_body
close_body_one b = ground arith

close_answer-none : (o : Option Response) → close_answer o [] ≡ []
unfolding close_body
close_answer-none none = refl
close_answer-none (some r) = refl

-- What the caller gets and what is open then: only the body of the response that it got.
abbrev pub Settled : {W : Type 0} → TripResult → Trip W → Type 0
Settled (answered o) t = (r : Response) × (o ≡ some r) × (t.opened ≡ r.body ∷ [])
Settled refused t = t.opened ≡ []
Settled (trip_failed e) t = t.opened ≡ []

module _ {W : Type 0} where
  -- Exactly the body of the response is open.
  abbrev Holding : Trip W → Type 0
  Holding t = (r : Response) × (t.answer ≡ some r) × (t.opened ≡ r.body ∷ [])

  -- At most the body of the response is open, and none before the first request.
  abbrev Tidy : Trip W → Type 0
  Tidy t = ((t.opened ≡ []) ⊎ Holding t) × (t.attempt ≡ 0 → t.opened ≡ [])

  abbrev After : Option HttpError → Trip W → Type 0
  After none t = Holding t × (0 < t.attempt)
  After (some temporary) t = Holding t × (0 < t.attempt)
  After (some (fault f)) t = Tidy t

  close_answer-Holding : (t : Trip W) → Holding t → close_answer t.answer t.opened ≡ []
  close_answer-Holding t (r, e, f) = rw (e, f) (close_body_one r.body)

  close_answer-Tidy : (t : Trip W) → Tidy t → close_answer t.answer t.opened ≡ []
  close_answer-Tidy t (inl e, h) = rw e (close_answer-none t.answer)
  close_answer-Tidy t (inr k, h) = close_answer-Holding t k

  received-After :
      (a : Answer) (t : Trip W)
      → t.opened ≡ []
      → 0 < t.attempt
      → (let r = received a t in After r.0 r.1)
  unfolding received
  received-After (failed f) t e p = (inl e, λ z. e)
  received-After (response r) t e p = elim (Bool-cases (is_temporary_status r.status)) [
    | inl b ↦ rw b ((r, refl, ap (λ l. r.body ∷ l) e), p)
    | inr b ↦ rw b ((r, refl, ap (λ l. r.body ∷ l) e), p)
  ]

  module _ (base : Text → Option Text → W → Answer × W) (req : Request) where
    send-After :
        (body : Option Text) (t : Trip W)
        → t.opened ≡ []
        → (let r = send base req body t in After r.0 r.1)
    unfolding send
    send-After body t e =
        received-After (base req.method body t.world).0
          (sent_trip body (base req.method body t.world).1 t) e (omega arith)

    send_fresh-After :
        (o : Option Text) (t : Trip W)
        → t.opened ≡ []
        → (let r = send_fresh base req o t in After r.0 r.1)
    unfolding send_fresh
    send_fresh-After none t e = (inl e, λ z. e)
    send_fresh-After (some b) t e = send-After (some b) t e

    send_again-After :
        (g : Option (ℕ → Option Text)) (t : Trip W)
        → t.opened ≡ []
        → (let r = send_again base req g t in After r.0 r.1)
    unfolding send_again
    send_again-After none t e = send-After req.body t e
    send_again-After (some g) t e = send_fresh-After (g t.attempt) t e

    attempt_once-After : (t : Trip W) → Tidy t → (let r = attempt_once base req t in After r.0 r.1)
    unfolding attempt_once
    attempt_once-After t h = elim (Bool-cases (ltb 0 t.attempt)) [
      | inl b ↦ rw b (
          send_again-After req.get_body (record t { opened = close_answer t.answer t.opened })
            (close_answer-Tidy t h))
      | inr b ↦ rw b (send-After req.body t (h.1 (ground arith)))
    ]

    module _ (rt : Runtime Fault W) (now : W → ℕ) (law : DoneHasError (trip_runtime rt)) where
      After-Tidy : (e : HttpError) (t : Trip W) → After (some e) t → Tidy t
      After-Tidy temporary t (h, p) = (inr h, λ z. absurd (omega (arith, z)))
      After-Tidy (fault f) t h = h

      After-exhausted :
          (e : HttpError) (t : Trip W)
          → After (some e) t
          → After (some e) (record t { world = rt.exhausted t.world })
      After-exhausted temporary t h = h
      After-exhausted (fault f) t h = h

      After-ended :
          (e : HttpError) (t : Trip W)
          → Tidy t
          → as_error (rt.ctx_err t.world) ≡ some e
          → After (some e) t
      After-ended temporary t h k = absurd (from (rt.ctx_err t.world) k)
        where
          from : (o : Option Fault) → as_error o ≡ some temporary → ⊥
          from none k = ground arith
          from (some f) k = ground arith
      After-ended (fault f) t h k = h

      attempts-Rule :
          Rule (trip_runtime rt) (retries rt now base req) (attempt_once base req) Tidy After
      attempts-Rule = record {
        retried = λ t h. h;
        exhausted = After-exhausted;
        paused = λ d t h. h;
        called = attempt_once-After;
        again = λ e t r h. After-Tidy e t h;
        ended = After-ended;
      }

      policy-After :
          (t : Trip W)
          → Tidy t
          → (let r = or_same (some (fault (other_error 0))) t (
                do_policy
                  (trip_runtime rt)
                  http_policy
                  (retries rt now base req)
                  (attempt_once base req)
                  t) in
              After r.0 r.1)
      policy-After t h =
          let (r, e) =
            do_policy_total (trip_runtime rt) http_policy (retries rt now base req)
              (attempt_once base req) t in
          rw e (
            do_policy-Q (trip_runtime rt) http_policy (retries rt now base req)
              (attempt_once base req) Tidy After law attempts-Rule t r.0 r.1 h e)

      give_up-Settled : (t : Trip W) → Tidy t → (give_up req t).opened ≡ []
      unfolding give_up
      give_up-Settled t h = close_answer-Tidy t h

      conclude-ran :
          (o : Option HttpError) (t : Trip W)
          → After o t
          → (let c = conclude req (ran o) t in Settled c.0 c.1)
      unfolding conclude
      conclude-ran none t h = h.0
      conclude-ran (some temporary) t h = h.0
      conclude-ran (some (fault f)) t h = give_up-Settled t h

      new_trip-Tidy : (w : W) → Tidy (new_trip w)
      unfolding new_trip
      new_trip-Tidy w = (inl refl, λ z. refl)

      -- Whatever the base transport, the clock and other callers of the breaker do, and with a
      -- context that has an error once it is done: when RoundTrip returns, the only body of a
      -- response that is open is that of the response it returns, and no body is open when it
      -- returns an error.
      pub round_trip-Settled :
          (meanwhile : Breaker → Breaker) (b : Breaker) (w : W)
          → (let r = round_trip rt now base req meanwhile b w in Settled r.0 r.1.1)
      unfolding round_trip guarded_call guarded conclude
      round_trip-Settled meanwhile b w =
          elim (do_call-Returns classify (λ t. rt.rand t.world) (λ t. now t.world)
            (λ t. as_error (rt.ctx_err t.world)) (guarded rt now base req meanwhile) b
            (new_trip w)) [
              | inl (e, h) ↦ rw h (give_up-Settled (new_trip w) (new_trip-Tidy w))
              | inr (inl (b', h)) ↦ rw h (give_up-Settled (new_trip w) (new_trip-Tidy w))
              | inr (inr (b₁, b₂, h)) ↦
                  rw h (conclude-ran _ _ (policy-After (new_trip w) (new_trip-Tidy w)))
            ]
