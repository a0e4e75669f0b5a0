-- ===== src/Consumer.antt =====
-- cmd/consumer/main.go: the handler of events and the supervisor of a reader. The stores, the reader and
-- the waiting are arguments.
pub mod Delivery
pub mod Supervision
use otus_app.Base.{ℕ, ◌+◌, Bool, true, false, List, [], ◌∷◌, Option, none, some, ltb, if◌then◌else◌}
use otus_app.Base.Int.{ℤ, pos}
use otus_app.Text.{Text}
use otus_app.Messaging.{MessageCreated}
use otus_app.Search.{Document}
use otus_app.Resilience.Jitter.{backoff}

-- cstore.Store and search.Index, each of which may be off.
pub record Sinks (E W : Type 0) : Type 0 where
  pub events : Option (MessageCreated → Text → W → Option E × W)
  pub index : Option (Document → W → Option E × W)

abbrev pub document_of : MessageCreated → Text → Document
document_of ev broker_name = record {
  id = ev.id;
  text = ev.text;
  checksum = ev.checksum;
  producer = broker_name;
  created_at = ev.created_at;
}

-- Why run refuses to start: neither store is configured.
unfoldable pub has_sink : {E W : Type 0} → Sinks E W → Bool
has_sink s = is_there s.events (is_there s.index false)
  where
    is_there : {A : Type 0} → Option A → Bool → Bool
    is_there none b = b
    is_there (some a) b = true

module _ {E W : Type 0} where
  abbrev pub index_event :
      Option (Document → W → Option E × W) → Text → MessageCreated → W → Option E × W
  index_event none broker_name ev w = (none, w)
  index_event (some put) broker_name ev w = put (document_of ev broker_name) w

  -- After Save: an error keeps the event from the index.
  unfoldable pub after_save : Sinks E W → Text → MessageCreated → Option E × W → Option E × W
  after_save s broker_name ev (some e, w) = (some e, w)
  after_save s broker_name ev (none, w) = index_event s.index broker_name ev w

  unfoldable pub save_event :
      Option (MessageCreated → Text → W → Option E × W) → Text → MessageCreated → W → Option E × W
  save_event none broker_name ev w = (none, w)
  save_event (some save) broker_name ev w = save ev broker_name w

  -- handle
  unfoldable pub handle_event : Sinks E W → Text → MessageCreated → W → Option E × W
  handle_event s broker_name ev w =
      after_save s broker_name ev (save_event s.events broker_name ev w)

-- A round of supervise: whether the context is alive at its start and after the reader, whether the factory
-- gives a reader, and whether Wait comes to its end. A reader's Consume works on any state with any handler.
pub record Round (E W : Type 0) : Type 0 where
  pub alive : Bool
  pub start : Option E
  pub read : (MessageCreated → ℕ × W → Option E × (ℕ × W)) → ℕ × W → Option E × (ℕ × W)
  pub alive_after : Bool
  pub waited : Bool

-- The variable attempt with the world, the readers that were opened and closed, the metric of restarts, and
-- the pauses that were asked for, latest first.
pub record Supervisor (W : Type 0) : Type 0 where
  pub attempt : ℕ
  pub world : W
  pub opened : ℕ
  pub closed : ℕ
  pub restarts : ℕ
  pub pauses : List ℕ

unfoldable pub count_restart : {W : Type 0} → Supervisor W → Supervisor W
count_restart s = record s { restarts = if ltb 0 s.attempt then s.restarts + 1 else s.restarts }

abbrev pub closed_reader : {W : Type 0} → Supervisor W → ℕ × W → Supervisor W
closed_reader s (attempt, w) = record s {
  attempt = attempt;
  world = w;
  opened = s.opened + 1;
  closed = s.closed + 1;
}

unfoldable pub pause : {W : Type 0} → (ℕ → ℕ) → Supervisor W → Supervisor W
pause rand s = record s {
  attempt = s.attempt + 1;
  pauses = backoff rand (pos (s.attempt + 1)) ∷ s.pauses;
}

-- Where a round ends: before the reader, after it, after the pause, or in the next round.
abbrev pub after_round : {S : Type 0} → Bool → Bool → Bool → S → S → S → S → S
after_round false alive_after waited before after paused rest = before
after_round true false waited before after paused rest = after
after_round true true false before after paused rest = paused
after_round true true true before after paused rest = rest

module _ {E W : Type 0} where
  -- The handler that supervise hands to the reader: a success sets attempt back.
  unfoldable pub reset_on_success : ℕ → Option E × W → Option E × (ℕ × W)
  reset_on_success attempt (none, w) = (none, (0, w))
  reset_on_success attempt (some e, w) = (some e, (attempt, w))

  abbrev pub counted :
      (MessageCreated → W → Option E × W) → MessageCreated → ℕ × W → Option E × (ℕ × W)
  counted handle ev (attempt, w) = reset_on_success attempt (handle ev w)

  -- The factory and, with a reader, its Consume and Close.
  unfoldable pub run_reader :
      (MessageCreated → W → Option E × W) → Round E W → Option E → Supervisor W → Supervisor W
  run_reader handle r (some e) s = s
  run_reader handle r none s = closed_reader s (r.read (counted handle) (s.attempt, s.world)).1

  module _ (rand : ℕ → ℕ) (handle : MessageCreated → W → Option E × W) where
    -- supervise; its loop goes on while the rounds' contexts are alive. At the end of the rounds the context
    -- is done.
    unfoldable pub supervise : List (Round E W) → Supervisor W → Supervisor W
    supervise [] s = s
    supervise (r ∷ rs) s =
        let after = run_reader handle r r.start (count_restart s) in
        after_round r.alive r.alive_after r.waited s after (pause rand after)
          (supervise rs (pause rand after))
