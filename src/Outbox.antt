-- ===== src/Outbox.antt =====
-- internal/outbox/worker.go: one turn of the loop of `run`, over the table of internal/storage and a
-- broker. What the database, the broker, the clock and other processes do in a turn is its input.
pub mod Steps
pub mod Guarantee
use otus_app.Base.{
  ℕ, ◌+◌, ◌*◌, Bool, true, false, ◌&&◌, Option, none, some, List, [], ◌∷◌, ltb, max, if◌then◌else◌,
}
use otus_app.Base.Int.{pos}
use otus_app.Resilience.Jitter.{second, millisecond, backoff}
use otus_app.Text.{Text}
use otus_app.Messaging.{Error, other, Result, ok, err, MessageCreated}
use otus_app.Storage.Tables.{Task, Fate, Json}
use otus_app.Storage.Outbox.{Delivery, Stats, claim, complete, retry, outbox_stats}

-- The table, and what the brokers have acknowledged, by target.
pub record World : Type 0 where
  pub tasks : List Task
  pub published : List (Text × MessageCreated)

-- The variables of `run`, its metrics, and the pauses that it asked for, latest first.
pub record Worker : Type 0 where
  pub publisher : Bool  -- publisher != nil
  pub attempt : ℕ
  pub claim_attempt : ℕ
  pub next_stats : ℕ
  pub stats : Option Stats  -- the gauges
  pub storage_errors : ℕ
  pub deliveries_ok : ℕ
  pub deliveries_error : ℕ
  pub pauses : List ℕ

-- What happens to a turn from outside.
pub record Input : Type 0 where
  pub stats_now : ℕ
  pub stats_after : ℕ
  pub stats_fault : Option Error
  pub token : Text
  pub claim_now : ℕ
  pub claim_fate : Fate
  pub factory : Option Error × Bool  -- the error, and whether there is a publisher
  pub publish : Option Error
  pub acknowledged : Bool  -- the broker kept the event although Publish returned an error
  pub finish_now : ℕ
  pub finish_fate : Fate
  pub rand : ℕ → ℕ
  pub waits : Bool  -- the answer of resilience.Wait
  pub meanwhile : World → World  -- other processes, between the claim and the publication
  pub afterwards : World → World  -- and between the publication and the end of the turn

-- Whether the loop goes on.
pub data Turn : Type 0 where
  goes_on returns : Turn

abbrev pub State : Type 0
State = Worker × World

pub not_configured : Error
not_configured = other 10

abbrev pub pause : Input → ℕ → Worker → World → Turn × State
pause inp d w s = (if inp.waits then goes_on else returns, (record w { pauses = d ∷ w.pauses }, s))

-- The statistics, at most once a second.
unfoldable pub observe : Input → Text → Worker → World → Worker
observe inp target w s =
    let next = record w { next_stats = inp.stats_after + second } in
    if ltb w.next_stats inp.stats_now
    then (elim (outbox_stats inp.stats_fault target inp.stats_now s.tasks) [
      | ok st ↦ record next { stats = some st }
      | err e ↦ record next { storage_errors = w.storage_errors + 1 }
    ])
    else w

-- From `if publisher == nil { publisher, err = factory(…) }` to Publish: whether there is a publisher
-- then, whether Publish was called, and the error.
unfoldable pub attempt_publish : Input → Bool → Bool × Bool × Option Error
attempt_publish inp true = (true, true, inp.publish)
attempt_publish inp false = elim inp.factory.0 [
  | some e ↦ (inp.factory.1, false, some e)
  | none ↦ if inp.factory.1 then (true, true, inp.publish) else (false, false, some not_configured)
]

-- Whether the broker holds the event after a call of Publish: it answered nil, or kept the event in
-- spite of its error.
unfoldable pub broker_keeps : Input → Bool
broker_keeps inp = elim inp.publish [ none ↦ true | some _ ↦ inp.acknowledged ]

unfoldable pub deliver_event : Input → Bool → Delivery → World → World
unfolding broker_keeps
deliver_event inp called d s =
    if called && broker_keeps inp
    then record s { published = (d.target, d.event) ∷ s.published }
    else s

abbrev pub count_error : Option Error → ℕ → ℕ
count_error none n = n
count_error (some _) n = n + 1

-- The end of a turn whose publication failed.
unfoldable pub finish_failed : Input → Delivery → Worker → World → Turn × State
finish_failed inp d w s =
    let delay = backoff inp.rand (pos (max d.attempts (w.attempt + 1))) in
    let (e, ts) = retry inp.finish_fate inp.finish_now delay d s.tasks in
    pause inp delay
      (record w {
        publisher = false;
        attempt = w.attempt + 1;
        deliveries_error = w.deliveries_error + 1;
        storage_errors = count_error e w.storage_errors;
      })
      (record s { tasks = ts })

abbrev pub count_done : Option Error → Worker → Worker
count_done none w = record w { deliveries_ok = w.deliveries_ok + 1 }
count_done (some _) w = record w { storage_errors = w.storage_errors + 1 }

-- The end of a turn whose event the broker acknowledged.
unfoldable pub finish_done : Input → Delivery → Worker → World → Turn × State
finish_done inp d w s =
    let (e, ts) = complete inp.finish_fate inp.finish_now d s.tasks in
    (goes_on, (record (count_done e w) { attempt = 0 }, record s { tasks = ts }))

unfoldable pub finish : Input → Delivery → Option Error → Worker → World → Turn × State
finish inp d none w s = finish_done inp d w s
finish inp d (some e) w s = finish_failed inp d w s

-- The publication of a claimed event, outside any transaction, and the end of the turn.
unfoldable pub handle : Input → Delivery → Worker → World → Turn × State
handle inp d w s =
    let (present, called, e) = attempt_publish inp w.publisher in
    let s' = inp.afterwards (deliver_event inp called d (inp.meanwhile s)) in
    finish inp d e (record w { publisher = present }) s'

unfoldable pub after_claim : Input → Result (Option Delivery) → Worker → World → Turn × State
after_claim inp (err e) w s =
    pause inp (backoff inp.rand (pos (w.claim_attempt + 1)))
      (record w { storage_errors = w.storage_errors + 1; claim_attempt = w.claim_attempt + 1 }) s
after_claim inp (ok none) w s = pause inp (250 * millisecond) (record w { claim_attempt = 0 }) s
after_claim inp (ok (some d)) w s = handle inp d (record w { claim_attempt = 0 }) s

-- One turn of the loop, entered with the context alive.
unfoldable pub turn : Json → Text → Input → State → Turn × State
turn json target inp (w, s) =
    let (r, ts) = claim json inp.claim_fate target inp.token inp.claim_now (45 * second) s.tasks in
    after_claim inp r (observe inp target w s) (record s { tasks = ts })

-- The loop of `run`, over the inputs of its turns; the context is done when they end.
unfoldable pub run : Json → Text → List Input → State → State
run json target [] st = st
run json target (inp ∷ inps) st =
    let (next, st') = turn json target inp st in
    elim next [ goes_on ↦ run json target inps st' | returns ↦ st' ]
