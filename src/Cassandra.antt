-- ===== src/Cassandra.antt =====
-- internal/cstore/cstore.go: the two tables of the event feed, Save, ByID, Recent and Scan. A table is the
-- list of its rows; an INSERT replaces the row with the same primary key. Failures of the database are
-- arguments.
pub mod Feed
pub mod View
use otus_app.Base.{
  ◌++◌, ℕ, suc, zero, ◌+◌, Bool, true, false, ◌&&◌, ◌||◌, ◌*◌, ◌/◌, ◌==◌, List, [], ◌∷◌, Option,
  none, some, if◌then◌else◌, ltb, length, take,
}
use otus_app.Base.Int.{ℤ, pos, negsuc, ltb_ℤ}
use otus_app.Text.{Text, text_eq, is_empty}
use otus_app.Resilience.Jitter.{second, millisecond, jitter}
use otus_app.Resilience.Retry.{Runtime, wait, is_none}
use otus_app.Messaging.{MessageCreated}

pub record Event : Type 0 where
  pub id : ℕ
  pub text : Text
  pub checksum : Text
  pub producer : Text
  pub created_at : ℕ

pub record Tables : Type 0 where
  -- message_events with the day of each row, and events_by_id
  pub feed : List (Text × Event)
  pub by_id : List Event

-- The primary key ((day), created_at, id).
unfoldable pub same_feed_key : Text × Event → Text × Event → Bool
same_feed_key (d, a) (e, b) = text_eq d e && a.created_at == b.created_at && a.id == b.id

unfoldable pub same_id : Event → Event → Bool
same_id a b = a.id == b.id

module _ {A : Type 0} (same : A → A → Bool) where
  unfoldable pub upsert : A → List A → List A
  upsert a [] = a ∷ []
  upsert a (b ∷ rows) = let rest = upsert a rows in if same b a then a ∷ rows else b ∷ rest

-- A timestamp of CQL counts milliseconds.
unfoldable pub cql_timestamp : ℕ → ℕ
cql_timestamp t = t / millisecond * millisecond

-- The row that the INSERT stores.
unfoldable pub event_of : MessageCreated → Text → Event
event_of ev producer = record {
  id = ev.id;
  text = ev.text;
  checksum = ev.checksum;
  producer = producer;
  created_at = cql_timestamp ev.created_at;
}

-- The logged batch of Save; `day` formats a time as its date in UTC.
unfoldable pub write_batch : (ℕ → Text) → MessageCreated → Text → Tables → Tables
write_batch day ev producer t = record {
  feed = upsert same_feed_key (day ev.created_at, event_of ev producer) t.feed;
  by_id = upsert same_id (event_of ev producer) t.by_id;
}

-- What a batch comes to: applied, refused, or applied although the client saw an error.
pub data BatchFate : Type 0 where
  applied : BatchFate
  refused unanswered : ℕ → BatchFate

unfoldable pub save : (ℕ → Text) → BatchFate → MessageCreated → Text → Tables → Option ℕ × Tables
save day applied ev producer t = (none, write_batch day ev producer t)
save day (refused e) ev producer t = (some e, t)
save day (unanswered e) ev producer t = (some e, write_batch day ev producer t)

unfoldable pub find_id : ℕ → List Event → Option Event
find_id id [] = none
find_id id (ev ∷ rows) = if ev.id == id then some ev else find_id id rows

-- ByID; `none` is gocql's ErrNotFound.
unfoldable pub get_event_by_id : ℕ → Tables → Option Event
get_event_by_id id t = find_id id t.by_id

-- One row of the loop of Scan; the needle is in lower case, and `matches` is Contains of the lowered text.
unfoldable pub scan_row : (Text → Bool) → ℤ → Event → List Event × ℕ → List Event × ℕ
scan_row matches limit ev (found, scanned) = (
  if ltb_ℤ (pos (length found)) limit && matches ev.text then found ++ ev ∷ [] else found,
  scanned + 1,
)

unfoldable pub scan_rows : (Text → Bool) → ℤ → List Event → List Event × ℕ → List Event × ℕ
scan_rows matches limit [] acc = acc
scan_rows matches limit (ev ∷ rows) acc =
    scan_rows matches limit rows (scan_row matches limit ev acc)

-- Scan over the rows that the iterator gives.
unfoldable pub scan_events : (Text → Bool) → ℤ → List Event → List Event × ℕ
scan_events matches limit rows = scan_rows matches limit rows ([], 0)

-- The order of the rows in a partition: by time and id, the latest first.
abbrev pub comes_later : Event → Event → Bool
comes_later a b = ltb b.created_at a.created_at || a.created_at == b.created_at && ltb b.id a.id

unfoldable pub insert_latest : Event → List Event → List Event
insert_latest a [] = a ∷ []
insert_latest a (b ∷ rows) =
    let rest = insert_latest a rows in if comes_later b a then b ∷ rest else a ∷ b ∷ rows

-- The partition of a day.
unfoldable pub partition : Text → List (Text × Event) → List Event
partition day [] = []
partition day ((d, ev) ∷ rows) =
    let rest = partition day rows in if text_eq d day then insert_latest ev rest else rest

-- Recent; `today` is the date of the clock. Cassandra refuses a LIMIT that is not positive.
unfoldable pub recent : Text → Text → ℤ → Tables → Option (List Event)
recent today day (negsuc n) t = none
recent today day (pos n) t =
    if ltb 0 n then some (take n (partition (if is_empty day then today else day) t.feed)) else none

-- Count
unfoldable pub count : Tables → ℕ
count t = length t.by_id

module _ {E W : Type 0} (rt : Runtime E W) where
  abbrev pub after_wait : Bool × W → Bool × W
  after_wait (true, w) = (true, rt.retried w)
  after_wait (false, w) = (false, w)

  -- retryPolicy.Attempt after this number of attempts.
  unfoldable pub attempt_again : ℕ → W → Bool × W
  attempt_again attempts w =
      if is_none (rt.ctx_err w)
      then if ltb 3 attempts
        then (false, rt.exhausted w)
        else after_wait
            (wait rt (jitter (rt.rand w) (pos attempts) (pos (50 * millisecond)) (pos second)) w)
      else (false, w)
