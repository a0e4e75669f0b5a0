-- ===== src/Tests/Storage.antt =====
-- Creating messages and leasing tasks at concrete inputs.
use otus_app.Base.{ℕ, ◌+◌, ◌*◌, ◌≡◌, ◌≢◌, ◌↔◌, refl, true, false, none, some, List, [], ◌∷◌, arith}
use otus_app.Resilience.Jitter.{second}
use otus_app.Text.{Text, codes, text_eq, is_empty}
use otus_app.Text.Trim.{is_blank, is_space, trim_space}
use otus_app.Messaging.{
  ok, err, idempotency_conflict, lease_lost, other, Message, MessageCreated, validate_text, Store,
  service_create, empty_text, created_event,
}
use otus_app.Messaging.Validation.{validate_text_iff, service_create-blank}
use otus_app.Storage.Tables.{Task, Db, done, lost, Json, find_row, find_task, update_where}
use otus_app.Storage.Messages.{
  Faults, create, after_insert, insert_row, nullif_empty, publish, replay, commit, store_tasks,
  enqueue_all, new_row, new_task,
}
use otus_app.Storage.Messages.Atomic.{Change, create-Change, creates-Inv, creates, Inv, Request}
use otus_app.Storage.Messages.Idempotent.{create_idempotent}
use otus_app.Storage.Outbox.{Delivery, claim, complete, retry, candidate}
use otus_app.Storage.Outbox.Rows.{UniqueTasks}
use otus_app.Storage.Outbox.Histories.{Statement, claims, retries, inserts, execute_all}
use otus_app.Storage.Outbox.Loss.{AreOthers, stale_refused}

validate_text_iff_example : (validate_text (codes " a") ≡ none) ↔ (is_blank (codes " a") ≡ false)
validate_text_iff_example = validate_text_iff (codes " a")

abbrev no_store : Store ℕ
no_store = record { create = λ t x k w. (err lease_lost, w); list = λ t w. (ok [], w) }

service_create-blank_example : service_create no_store (codes " ") [] 3 ≡ (err empty_text, 3)
service_create-blank_example =
    service_create-blank no_store (codes " ") [] 3 (unfold is_blank is_space in refl)

-- The payload of an event is its text.
abbrev json : Json
json = record {
  marshal = λ ev. some ev.text;
  unmarshal =
      λ raw. some (record { id = 1; text = raw; checksum = []; created_at = 0; producer = [] });
}

abbrev hash : Text → Text
hash t = t

abbrev targets : List Text
targets = codes "kafka" ∷ codes "nats" ∷ []

abbrev fine : Faults
fine = record { begin = none; insert = none; select = none; enqueue = λ t. none; commit = done }

abbrev answer_lost : Faults
answer_lost = record fine { commit = lost (other 9) }

abbrev empty_db : Db
empty_db = record { seq = 0; messages = []; outbox = [] }

-- A commit whose answer was lost, then the same request again.
create_after_loss :
    let db = (create hash json targets answer_lost 5 (codes "hi") (codes "k") empty_db).1 in
    (create hash json targets fine 6 (codes "hi") (codes "k") db).0
    ≡ ok (record {
      id = 1;
      text = codes "hi";
      checksum = codes "hi";
      checksum_ok = true;
      created_at = 5;
    })
unfolding create after_insert insert_row nullif_empty publish replay commit store_tasks enqueue_all
    validate_text trim_space is_space is_empty find_row find_task text_eq created_event
create_after_loss = refl

create-Change_example :
    Change targets
      (new_row 1 (codes "hi") (codes "hi") (nullif_empty (codes "k")) 5)
      empty_db
      (create hash json targets answer_lost 5 (codes "hi") (codes "k") empty_db).1
create-Change_example =
    create-Change hash json targets answer_lost 5 (codes "hi") (codes "k") empty_db

empty_db-Inv : Inv targets empty_db
empty_db-Inv = record { queued = tt; ordered = tt; unique = tt }

abbrev requests : List Request
requests =
    record { faults = answer_lost; now = 5; text = codes "hi"; key = codes "k" }
    ∷ record { faults = fine; now = 6; text = codes "ho"; key = [] }
    ∷ []

creates-Inv_example : Inv targets (creates hash json targets requests empty_db)
creates-Inv_example = creates-Inv hash json targets requests empty_db empty_db-Inv

abbrev stored : Db
stored = record {
  seq = 1;
  messages = new_row 1 (codes "hi") (codes "hi") (some (codes "k")) 5 ∷ [];
  outbox =
      new_task 1 (codes "nats") (codes "hi") 5 ∷ new_task 1 (codes "kafka") (codes "hi") 5 ∷ [];
}

abbrev hi : Message
hi = record { id = 1; text = codes "hi"; checksum = codes "hi"; checksum_ok = true; created_at = 5 }

create_first : create hash json targets fine 5 (codes "hi") (codes "k") empty_db ≡ (ok hi, stored)
unfolding create after_insert insert_row nullif_empty publish replay commit store_tasks enqueue_all
    validate_text trim_space is_space is_empty find_row find_task text_eq created_event
create_first = refl

create_idempotent_example :
    let db₂ = creates hash json targets requests stored in
    let (res, db₃) = create hash json targets fine 7 (codes "no") (codes "k") db₂ in
    (db₃.messages ≡ db₂.messages)
    × (db₃.outbox ≡ db₂.outbox)
    × (codes "no" ≡ codes "hi"
        → (m' : Message) × (res ≡ ok m')
          × (m'.id ≡ 1)
          × (m'.text ≡ codes "hi")
          × (m'.checksum ≡ codes "hi")
          × (m'.created_at ≡ 5)
          × (m'.checksum_ok ≡ true))
    × (codes "no" ≢ codes "hi" → res ≡ err idempotency_conflict)
create_idempotent_example =
    create_idempotent hash json targets fine fine 5 7 (codes "hi") (codes "no") (codes "k") empty_db
      stored hi requests (unfold is_empty in refl) create_first (refl, refl, refl, refl)
      (unfold validate_text trim_space is_space is_empty in refl)

-- Two workers and one task.
abbrev task : Task
task = new_task 1 (codes "nats") (codes "hi") 5

abbrev event : MessageCreated
event = record { id = 1; text = codes "hi"; checksum = []; created_at = 0; producer = [] }

abbrev leased : ℕ → Text → ℕ → Task
leased now token n = record task {
  lease_token = some token;
  available_at = now + 45 * second;
  attempts = n;
}

abbrev held : Text → ℕ → Delivery
held token n = record {
  message_id = 1;
  target = codes "nats";
  token = token;
  attempts = n;
  event = event;
}

claim-second :
    claim json done
      (codes "nats")
      (codes "b")
      (46 * second)
      (45 * second)
      (leased 5 (codes "a") 1 ∷ [])
    ≡ (ok (some (held (codes "b") 2)), leased (46 * second) (codes "b") 2 ∷ [])
unfolding claim candidate text_eq update_where
claim-second = refl

one_leased : UniqueTasks (leased 5 (codes "a") 1 ∷ [])
unfolding find_task
one_leased = (refl, tt)

-- The second worker postpones the task, and a third one claims it.
abbrev afterwards : List Statement
afterwards =
    retries done (47 * second) second (held (codes "b") 2)
    ∷ claims done (codes "nats") (codes "c") (49 * second) (45 * second)
    ∷ []

stale_refused_example :
    let ts = execute_all json afterwards (leased (46 * second) (codes "b") 2 ∷ []) in
    (complete done (50 * second) (held (codes "a") 1) ts ≡ (some lease_lost, ts))
    × (retry done (50 * second) second (held (codes "a") 1) ts ≡ (some lease_lost, ts))
stale_refused_example =
    stale_refused json (codes "b") (46 * second) (45 * second) (50 * second) second
      (leased 5 (codes "a") 1 ∷ []) (leased (46 * second) (codes "b") 2 ∷ []) (held (codes "a") 1)
      (held (codes "b") 2) afterwards one_leased claim-second refl (λ e. ground arith)
      (unfold AreOthers in (tt, (λ e. ground arith, tt)))

-- Two tasks of one target, claimed one after the other.
abbrev task' : Task
task' = record task { message_id = 2; available_at = 6 }

abbrev held' : Text → ℕ → Delivery
held' token n = record (held token n) { message_id = 2 }

-- Another worker claims the other task and postpones it, and a message is stored.
abbrev meanwhile : List Statement
meanwhile =
    claims done (codes "nats") (codes "b") 8 (45 * second)
    ∷ retries done 9 0 (held' (codes "b") 1)
    ∷ inserts 3 (codes "nats") (codes "ho") 10
    ∷ []

abbrev table : List Task
table = execute_all json meanwhile (leased 7 (codes "a") 1 ∷ task' ∷ [])
