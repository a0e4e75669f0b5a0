-- ===== src/Storage/Messages.antt =====
-- Postgres.Create and Postgres.List.
pub mod Enqueue
pub mod Atomic
pub mod Idempotent
use otus_app.Base.{
  ℕ, zero, suc, ◌+◌, Bool, true, false, ◌||◌, not, Option, none, some, List, [], ◌∷◌, ◌==◌, ltb,
  if◌then◌else◌, map, take,
}
use otus_app.Text.{Text, codes, text_eq, is_empty}
use otus_app.Messaging.{
  Error, idempotency_conflict, other, Result, ok, err, Message, MessageCreated, validate_text,
  created_event,
}
use otus_app.Storage.Tables.{
  Row, Task, Db, Fate, done, refused, lost, Json, is_some, find_task, find_row,
}

-- The faults of one call of Create: of each statement, and of the commit.
pub record Faults : Type 0 where
  pub begin : Option Error
  pub insert : Option Error
  pub select : Option Error
  pub enqueue : Text → Option Error
  pub commit : Fate

-- Errors of the database that the code does not tell apart.
abbrev pub no_rows : Error
no_rows = other 0

abbrev pub check_violation : Error
check_violation = other 1

abbrev pub marshal_failed : Error
marshal_failed = other 2

-- CHECK (target IN ('kafka', 'rabbitmq', 'nats'))
unfoldable pub is_target : Text → Bool
is_target t = text_eq t (codes "kafka") || text_eq t (codes "rabbitmq") || text_eq t (codes "nats")

-- NULLIF(key, '')
unfoldable pub nullif_empty : Text → Option Text
nullif_empty key = if is_empty key then none else some key

abbrev pub conflict_row : Option Text → List Row → Option Row
conflict_row none rows = none
conflict_row (some key) rows = find_row key rows

abbrev pub new_row : ℕ → Text → Text → Option Text → ℕ → Row
new_row id text hash key now = record {
  id = id;
  text = text;
  text_hash = hash;
  idem_key = key;
  created_at = now;
}

abbrev pub new_task : ℕ → Text → Text → ℕ → Task
new_task id target payload now = record {
  message_id = id;
  target = target;
  payload = payload;
  created_at = now;
  available_at = now;
  lease_token = none;
  attempts = 0;
  delivered_at = none;
}

-- INSERT INTO messages … ON CONFLICT (idem_key) DO NOTHING RETURNING …; the sequence moves on either
-- way.
unfoldable pub insert_row : Text → Text → Option Text → ℕ → Db → Option Row × Db
insert_row text hash key now db =
    let db' = record db { seq = db.seq + 1 } in
    let row = new_row (db.seq + 1) text hash key now in
    elim (conflict_row key db.messages) [
      | some _ ↦ (none, db')
      | none ↦ (some row, record db' { messages = row ∷ db.messages })
    ]

-- INSERT INTO message_outbox … ON CONFLICT (message_id, target) DO NOTHING
unfoldable pub insert_task : ℕ → Text → Text → ℕ → List Task → List Task
insert_task id target payload now ts =
    if is_some (find_task id target ts) then ts else new_task id target payload now ∷ ts

-- The loop over the targets; `err` is the first error.
unfoldable pub enqueue_all : Faults → ℕ → Text → ℕ → List Text → List Task → Result (List Task)
unfolding is_target insert_task
enqueue_all faults id payload now [] ts = ok ts
enqueue_all faults id payload now (target ∷ targets) ts =
    let rest = enqueue_all faults id payload now targets (insert_task id target payload now ts) in
    elim (faults.enqueue target) [
      | some e ↦ err e
      | none ↦ if is_target target then rest else err check_violation
    ]

abbrev pub message_of : Row → Bool → Message
message_of r good = record {
  id = r.id;
  text = r.text;
  checksum = r.text_hash;
  checksum_ok = good;
  created_at = r.created_at;
}

-- tx.Commit, or the deferred rollback to `db` when it fails. The sequence stays.
unfoldable pub commit : Fate → Db → Db → Message → Result Message × Db
commit done db db' m = (ok m, db')
commit (refused e) db db' m = (err e, record db { seq = db'.seq })
commit (lost e) db db' m = (err e, db')

abbrev pub rollback : Error → Db → Db → Result Message × Db
rollback e db db' = (err e, record db { seq = db'.seq })

-- The end of the branch of a new row: the first error of the loop, or the commit.
unfoldable pub store_tasks : Fate → Row → Db → Db → Result (List Task) → Result Message × Db
unfolding commit
store_tasks fate r db db' (err e) = rollback e db db'
store_tasks fate r db db' (ok ts) = commit fate db (record db' { outbox = ts }) (message_of r true)

module _ (hash : Text → Text) (json : Json) (targets : List Text) where
  -- The branch of a key that is taken.
  unfoldable pub replay : Faults → Text → Text → Db → Db → Result Message × Db
  unfolding commit
  replay faults text key db db' = elim faults.select [
    | some e ↦ rollback e db db'
    | none ↦ elim (find_row key db'.messages) [
      | none ↦ rollback no_rows db db'
      | some r ↦
          if not (text_eq r.text text)
          then rollback idempotency_conflict db db'
          else commit faults.commit db db' (message_of r (text_eq r.text_hash (hash r.text)))
    ]
  ]

  -- The branch of a new row.
  unfoldable pub publish : Faults → ℕ → Row → Db → Db → Result Message × Db
  unfolding store_tasks created_event enqueue_all
  publish faults now r db db' = elim (json.marshal (created_event (message_of r true))) [
    | none ↦ rollback marshal_failed db db'
    | some payload ↦
        store_tasks faults.commit r db db' (enqueue_all faults r.id payload now targets db'.outbox)
  ]

  -- From the answer of the INSERT: a row, or ErrNoRows.
  unfoldable pub after_insert :
      Faults → ℕ → Text → Text → Db → Option Row × Db → Result Message × Db
  after_insert faults now text key db (some r, db') = publish faults now r db db'
  after_insert faults now text key db (none, db') = replay faults text key db db'

  -- Postgres.Create
  unfoldable pub create : Faults → ℕ → Text → Text → Db → Result Message × Db
  create faults now text key db = elim (validate_text text) [
    | some e ↦ (err e, db)
    | none ↦ elim faults.begin [
      | some e ↦ (err e, db)
      | none ↦ elim faults.insert [
        | some e ↦ (err e, db)
        | none ↦
            after_insert faults now text key db
              (insert_row text (hash text) (nullif_empty key) now db)
      ]
    ]
  ]

  -- ORDER BY id DESC
  unfoldable pub insert_desc : Row → List Row → List Row
  insert_desc r [] = r ∷ []
  insert_desc r (s ∷ ss) = if ltb r.id s.id then s ∷ insert_desc r ss else r ∷ s ∷ ss

  unfoldable pub order_desc : List Row → List Row
  unfolding insert_desc
  order_desc [] = []
  order_desc (r ∷ rs) = insert_desc r (order_desc rs)

  -- Postgres.List; a fault of the query is its error.
  unfoldable pub list : Option Error → Db → Result (List Message)
  unfolding order_desc
  list (some e) db = err e
  list none db = ok (
      map (λ r. message_of r (text_eq r.text_hash (hash r.text)))
        (take 100 (order_desc db.messages)))
