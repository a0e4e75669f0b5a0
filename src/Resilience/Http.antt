-- ===== src/Resilience/Http.antt =====
-- internal/resilience/http.go: HTTPTransport.RoundTrip over Policy.Do and Breaker.Do. The base transport
-- answers with a response or an error (documented by http.RoundTripper). Bodies of responses are numbers;
-- the open ones are part of the state.
pub mod Bodies
pub mod Repeats
use otus_app.Base.{
  ℕ, ◌+◌, ◌*◌, Bool, true, false, ◌&&◌, ◌||◌, not, ◌==◌, List, [], ◌∷◌, Option, none, some, ltb,
  if◌then◌else◌,
}
use otus_app.Base.Int.{ℤ, pos}
use otus_app.Text.{Text, codes, text_eq}
use otus_app.Resilience.Jitter.{second, millisecond}
use otus_app.Resilience.Retry.{Policy, Runtime, do_policy}
use otus_app.Resilience.Breaker.{
  Breaker, Outcome, success, canceled, failure, DoResult, ctx_done, err_open, ran, do_call,
}

-- The errors of the base transport and of contexts: io.EOF, io.ErrUnexpectedEOF, the two errors of a
-- context, another net.Error, and any other.
pub data Fault : Type 0 where
  eof unexpected_eof context_canceled deadline_exceeded : Fault
  net_error other_error : ℕ → Fault

-- These, and errTemporaryHTTP, which only this file knows.
pub data HttpError : Type 0 where
  temporary : HttpError
  fault : Fault → HttpError

pub record Response : Type 0 where
  pub status : ℕ
  pub body : ℕ

pub data Answer : Type 0 where
  response : Response → Answer
  failed : Fault → Answer

-- GetBody, if there is one, answers by the number of its call: an error, or a new reader of the body.
pub record Request : Type 0 where
  pub method : Text
  pub body : Option Text
  pub get_body : Option (ℕ → Option Text)

-- The variables of RoundTrip, the open bodies of responses, whether it closed the request's own body, and
-- the bodies that were sent, latest first.
pub record Trip (W : Type 0) : Type 0 where
  pub world : W
  pub answer : Option Response
  pub attempt : ℕ
  pub opened : List ℕ
  pub body_closed : Bool
  pub sent : List (Option Text)

unfoldable pub new_trip : {W : Type 0} → W → Trip W
new_trip w = record {
  world = w;
  answer = none;
  attempt = 0;
  opened = [];
  body_closed = false;
  sent = [];
}

abbrev pub is_some : {A : Type 0} → Option A → Bool
is_some none = false
is_some (some a) = true

-- PUT overwrites a resource; a body must be repeatable.
unfoldable pub is_safe : Request → Bool
is_safe r =
    (text_eq r.method (codes "GET")
      || text_eq r.method (codes "HEAD")
      || text_eq r.method (codes "PUT"))
    && (not (is_some r.body) || is_some r.get_body)

-- Which errors of a safe request are repeated: DeadlineExceeded is a net.Error.
unfoldable pub is_transient_fault : Fault → Bool
is_transient_fault eof = true
is_transient_fault unexpected_eof = true
is_transient_fault deadline_exceeded = true
is_transient_fault context_canceled = false
is_transient_fault (net_error n) = true
is_transient_fault (other_error n) = false

unfoldable pub is_transient : HttpError → Bool
is_transient temporary = true
is_transient (fault f) = is_transient_fault f

unfoldable pub is_temporary_status : ℕ → Bool
is_temporary_status s = s == 429 || s == 500 || s == 502 || s == 503 || s == 504

unfoldable pub close_body : ℕ → List ℕ → List ℕ
close_body b [] = []
close_body b (c ∷ cs) = let rest = close_body b cs in if c == b then rest else c ∷ rest

abbrev pub close_answer : Option Response → List ℕ → List ℕ
close_answer none opened = opened
close_answer (some r) opened = close_body r.body opened

abbrev pub as_error : Option Fault → Option HttpError
as_error none = none
as_error (some f) = some (fault f)

module _ {W : Type 0} where
  -- The base transport's answer becomes the variable response.
  unfoldable pub received : Answer → Trip W → Option HttpError × Trip W
  received (failed f) t = (some (fault f), record t { answer = none })
  received (response r) t = (
    if is_temporary_status r.status then some temporary else none,
    record t { answer = some r; opened = r.body ∷ t.opened },
  )

  abbrev pub sent_trip : Option Text → W → Trip W → Trip W
  sent_trip body w t = record t { world = w; attempt = t.attempt + 1; sent = body ∷ t.sent }

  unfoldable pub send :
      (Text → Option Text → W → Answer × W)
      → Request
      → Option Text
      → Trip W
      → Option HttpError × Trip W
  send base req body t = let r = base req.method body t.world in received r.0 (sent_trip body r.1 t)

  -- What GetBody gave: an error ends the attempt.
  unfoldable pub send_fresh :
      (Text → Option Text → W → Answer × W)
      → Request
      → Option Text
      → Trip W
      → Option HttpError × Trip W
  send_fresh base req none t = (some (fault (other_error 0)), t)
  send_fresh base req (some body) t = send base req (some body) t

  -- A repeat takes its body from GetBody.
  unfoldable pub send_again :
      (Text → Option Text → W → Answer × W)
      → Request
      → Option (ℕ → Option Text)
      → Trip W
      → Option HttpError × Trip W
  send_again base req none t = send base req req.body t
  send_again base req (some g) t = send_fresh base req (g t.attempt) t

  -- The function that the policy repeats.
  unfoldable pub attempt_once :
      (Text → Option Text → W → Answer × W) → Request → Trip W → Option HttpError × Trip W
  attempt_once base req t =
      if ltb 0 t.attempt
      then send_again base req req.get_body (record t { opened = close_answer t.answer t.opened })
      else send base req req.body t

  -- Runtime of the policy on the variables.
  abbrev pub trip_runtime : Runtime Fault W → Runtime HttpError (Trip W)
  trip_runtime rt = record {
    ctx_err = λ t. as_error (rt.ctx_err t.world);
    select = λ d t. let r = rt.select d t.world in (r.0, record t { world = r.1 });
    rand = λ t. rt.rand t.world;
    retried = λ t. record t { world = rt.retried t.world };
    exhausted = λ t. record t { world = rt.exhausted t.world };
  }

abbrev pub http_policy : Policy
http_policy = record { attempts = pos 3; base = pos (100 * millisecond); limit = pos (2 * second) }

-- What Breaker.Do makes of the error.
unfoldable pub classify : Option HttpError → Outcome
classify none = success
classify (some temporary) = failure
classify (some (fault context_canceled)) = canceled
classify (some (fault eof)) = failure
classify (some (fault unexpected_eof)) = failure
classify (some (fault deadline_exceeded)) = failure
classify (some (fault (net_error n))) = failure
classify (some (fault (other_error n))) = failure

pub data TripResult : Type 0 where
  answered : Option Response → TripResult
  refused : TripResult
  trip_failed : HttpError → TripResult

-- The policy's loop never runs out of its fuel: Retry.Budget.do_policy_total.
abbrev pub or_same : {A S : Type 0} → A → S → Option (A × S) → A × S
or_same a s none = (a, s)
or_same a s (some r) = r

module _ {W : Type 0} where
  -- The error path: the last response is closed, and the request's body if nothing was sent.
  unfoldable pub give_up : Request → Trip W → Trip W
  give_up req t = record t {
    opened = close_answer t.answer t.opened;
    body_closed = t.attempt == 0 && is_some req.body;
  }

  unfoldable pub conclude : Request → DoResult HttpError → Trip W → TripResult × Trip W
  conclude req (ran none) t = (answered t.answer, t)
  conclude req (ran (some temporary)) t = (answered t.answer, t)
  conclude req (ran (some (fault f))) t = (trip_failed (fault f), give_up req t)
  conclude req (ctx_done e) t = (trip_failed e, give_up req t)
  conclude req err_open t = (refused, give_up req t)

  module _ (rt : Runtime Fault W) (now : W → ℕ) (base : Text → Option Text → W → Answer × W)
      (req : Request) where
    abbrev pub retries : HttpError → Bool
    retries e = is_safe req && is_transient e

    -- The function that the breaker guards; `meanwhile` is what other requests do to the breaker.
    unfoldable pub guarded :
        (Breaker → Breaker) → Breaker × Trip W → Option HttpError × (Breaker × Trip W)
    guarded meanwhile (b, t) =
        let r =
          or_same (some (fault (other_error 0))) t
            (do_policy (trip_runtime rt) http_policy retries (attempt_once base req) t) in
        (r.0, (meanwhile b, r.1))

    unfoldable pub guarded_call :
        (Breaker → Breaker) → Breaker × Trip W → DoResult HttpError × (Breaker × Trip W)
    guarded_call meanwhile s =
        do_call classify (λ t. rt.rand t.world) (λ t. now t.world)
          (λ t. as_error (rt.ctx_err t.world)) (guarded meanwhile) s

    abbrev pub finish_trip :
        DoResult HttpError × (Breaker × Trip W) → TripResult × (Breaker × Trip W)
    finish_trip (r, (b, t)) = let c = conclude req r t in (c.0, (b, c.1))

    -- RoundTrip.
    unfoldable pub round_trip : (Breaker → Breaker) → Breaker → W → TripResult × (Breaker × Trip W)
    round_trip meanwhile b w = finish_trip (guarded_call meanwhile (b, new_trip w))
