-- ===== src/Broker/Kafka.antt =====
-- internal/broker/kafka.go: the loop of Consume. The client's answers are the input, in the order in which
-- the loop asks for them.
pub mod Commits
pub mod Topic
use otus_app.Base.{ℕ, ◌+◌, List, [], ◌∷◌, Option, none, some, Bool, if◌then◌else◌}
use otus_app.Text.{Text}
use otus_app.Messaging.{MessageCreated}

pub record Record : Type 0 where
  pub partition : ℕ
  pub offset : ℕ
  pub value : Text

-- FetchMessage: a record with what CommitMessages would answer for it, an error while the context is
-- alive, or an error because it is done.
pub data Fetch : Type 0 where
  fetched : Record → Option ℕ → Fetch
  fetch_failed : Fetch
  ctx_done : Fetch

-- What Consume returns.
pub data Stop : Type 0 where
  cancelled malformed : Stop
  handle_failed commit_failed : ℕ → Stop

-- The handler's world, the records that it accepted and those whose commit succeeded, both latest first,
-- and the counters.
pub record Consumer (W : Type 0) : Type 0 where
  pub world : W
  pub handled : List Record
  pub committed : List Record
  pub ok_count : ℕ
  pub error_count : ℕ
  pub malformed_count : ℕ

module _ {W : Type 0} where
  -- After the handler accepted the record.
  unfoldable pub commit_record : Record → Option ℕ → W → Consumer W → Option Stop × Consumer W
  commit_record r (some e) w c =
      (some (commit_failed e), record c { world = w; handled = r ∷ c.handled })
  commit_record r none w c = (
    none,
    record c {
      world = w;
      handled = r ∷ c.handled;
      committed = r ∷ c.committed;
      ok_count = c.ok_count + 1;
    },
  )

  unfoldable pub after_handle :
      Record → Option ℕ → Option ℕ × W → Consumer W → Option Stop × Consumer W
  after_handle r answer (some e, w) c =
      (some (handle_failed e), record c { world = w; error_count = c.error_count + 1 })
  after_handle r answer (none, w) c = commit_record r answer w c

  unfoldable pub after_decode :
      (MessageCreated → W → Option ℕ × W)
      → Record
      → Option ℕ
      → Option MessageCreated
      → Consumer W
      → Option Stop × Consumer W
  after_decode handle r answer none c =
      (some malformed, record c { malformed_count = c.malformed_count + 1 })
  after_decode handle r answer (some ev) c = after_handle r answer (handle ev c.world) c

module _ {W : Type 0} (decode : Text → Option MessageCreated)
    (handle : MessageCreated → W → Option ℕ × W) where
  -- One record; `none` goes on with the loop.
  unfoldable pub consume_record : Record → Option ℕ → Consumer W → Option Stop × Consumer W
  consume_record r answer c = after_decode handle r answer (decode r.value) c

  abbrev pub or_continue :
      Option Stop × Consumer W → (Consumer W → Stop × Consumer W) → Stop × Consumer W
  or_continue (some s, c) continue = (s, c)
  or_continue (none, c) continue = continue c

  -- Consume; at the end of the input the context is cancelled.
  unfoldable pub consume : List Fetch → Consumer W → Stop × Consumer W
  consume [] c = (cancelled, c)
  consume (ctx_done ∷ fs) c = (cancelled, c)
  consume (fetch_failed ∷ fs) c = consume fs c
  consume (fetched r answer ∷ fs) c = or_continue (consume_record r answer c) (λ c'. consume fs c')
