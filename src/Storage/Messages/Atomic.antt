-- ===== src/Storage/Messages/Atomic.antt =====
-- Create is atomic: the message and its tasks for every target appear together or not at all.
use otus_app.Base.{
  ℕ, ◌+◌, ◌≤◌, ◌<◌, ◌≡◌, refl, true, none, List, [], ◌∷◌, arith, Option-cases, inl, inr,
}
use otus_app.Text.{Text}
use otus_app.Messaging.{Result, ok, err, Message, created_event, validate_text}
use otus_app.Storage.Tables.{Row, Task, Db, Fate, done, refused, lost, Json}
use otus_app.Storage.Messages.{
  Faults, new_row, conflict_row, nullif_empty, insert_row, commit, replay, publish, create,
  enqueue_all, message_of, store_tasks, after_insert,
}
use otus_app.Storage.Messages.Enqueue.{
  Queued, Extends, Queued-Extends, enqueue_all-Queued, enqueue_all-Extends,
}

-- What a call can do to the database: nothing but use up a number of the sequence, or add one message
-- whose tasks are all queued.
pub data Change (targets : List Text) (r : Row) (db db' : Db) : Type 0 where
  unchanged :
      db'.messages ≡ db.messages
      → db'.outbox ≡ db.outbox
      → db.seq ≤ db'.seq
      → Change targets r db db'
  added :
      db'.messages ≡ r ∷ db.messages
      → db'.seq ≡ db.seq + 1
      → Queued r.id targets db'.outbox
      → Extends db.outbox db'.outbox
      → conflict_row r.idem_key db.messages ≡ none
      → Change targets r db db'

module _ (hash : Text → Text) (json : Json) (targets : List Text) where
  replay-Change :
      (f : Faults) (text key : Text) (r : Row) (db db' : Db)
      → db'.messages ≡ db.messages
      → db'.outbox ≡ db.outbox
      → db.seq ≤ db'.seq
      → Change targets r db (replay hash json targets f text key db db').1
  unfolding replay commit
  replay-Change f text key r db db' m o s = unchanged (ground arith) (ground arith) (ground arith)

  commit-Change :
      (fate : Fate) (r : Row) (db db' : Db) (m : Message)
      → db.seq ≤ db'.seq
      → Change targets r db db'
      → Change targets r db (commit fate db db' m).1
  unfolding commit
  commit-Change done r db db' m s c = c
  commit-Change (refused e) r db db' m s c = unchanged refl refl s
  commit-Change (lost e) r db db' m s c = c

  store_tasks-Change :
      (f : Faults) (payload : Text) (now : ℕ) (r : Row) (db db' : Db) (q : Result (List Task))
      → db'.messages ≡ r ∷ db.messages
      → db'.outbox ≡ db.outbox
      → db'.seq ≡ db.seq + 1
      → conflict_row r.idem_key db.messages ≡ none
      → enqueue_all f r.id payload now targets db'.outbox ≡ q
      → Change targets r db (store_tasks f.commit r db db' q).1
  unfolding store_tasks
  store_tasks-Change f payload now r db db' (err e) m o s k h = unchanged refl refl (omega arith)
  store_tasks-Change f payload now r db db' (ok ts) m o s k h =
      commit-Change f.commit r db (record db' { outbox = ts }) (message_of r true) (omega arith)
        (added m s (enqueue_all-Queued f r.id payload now targets db'.outbox ts h)
          (rw (← o) (enqueue_all-Extends f r.id payload now targets db'.outbox ts h)) k)

  publish-Change :
      (f : Faults) (now : ℕ) (r : Row) (db db' : Db)
      → db'.messages ≡ r ∷ db.messages
      → db'.outbox ≡ db.outbox
      → db'.seq ≡ db.seq + 1
      → conflict_row r.idem_key db.messages ≡ none
      → Change targets r db (publish hash json targets f now r db db').1
  unfolding publish
  publish-Change f now r db db' m o s k =
      elim (Option-cases (json.marshal (created_event (message_of r true)))) [
        | inl e ↦ rw (e, publish) (unchanged refl refl (omega arith))
        | inr (payload, e) ↦
            rw (e, publish) (store_tasks-Change f payload now r db db' _ m o s k refl)
      ]

  insert-Change :
      (f : Faults) (now : ℕ) (text key : Text) (db : Db)
      → Change targets
          (new_row (db.seq + 1) text (hash text) (nullif_empty key) now)
          db
          (after_insert hash json targets f now text key db
            (insert_row text (hash text) (nullif_empty key) now db)).1
  unfolding after_insert insert_row
  insert-Change f now text key db =
      let row = new_row (db.seq + 1) text (hash text) (nullif_empty key) now in
      let next = record db { seq = db.seq + 1 } in
      elim (Option-cases (conflict_row (nullif_empty key) db.messages)) [
        | inl e ↦
            rw (e, insert_row)
              (publish-Change f now row db (record next { messages = row ∷ db.messages }) refl refl
                refl e)
        | inr (old, e) ↦
            rw (e, insert_row) (replay-Change f text key row db next refl refl (omega arith))
      ]

  -- Whatever fails on the way, a call of Create either leaves both tables as they were, or adds
  -- the one row that its arguments describe together with a task for every target, and loses no
  -- task.
  pub create-Change :
      (f : Faults) (now : ℕ) (text key : Text) (db : Db)
      → Change targets
          (new_row (db.seq + 1) text (hash text) (nullif_empty key) now)
          db
          (create hash json targets f now text key db).1
  unfolding create
  create-Change f now text key db = elim (Option-cases (validate_text text)) [
    | inr (x, e) ↦ rw (e, create) same
    | inl e ↦ elim (Option-cases f.begin) [
      | inr (x, e') ↦ rw (e, e', create) same
      | inl e' ↦ elim (Option-cases f.insert) [
        | inr (x, d) ↦ rw (e, e', d, create) same
        | inl d ↦ rw (e, e', d, create) (insert-Change f now text key db)
      ]
    ]
  ]
    where
      same : Change targets (new_row (db.seq + 1) text (hash text) (nullif_empty key) now) db db
      same = unchanged refl refl (omega arith)

-- Each message of a table has a task for every target.
abbrev pub EveryQueued : List Text → List Row → List Task → Type 0
EveryQueued targets [] ts = Unit {0}
EveryQueued targets (r ∷ rs) ts = Queued r.id targets ts × EveryQueued targets rs ts

-- Identifiers fall along the table and stay under the bound.
abbrev pub Below : ℕ → List Row → Type 0
Below n [] = Unit {0}
Below n (r ∷ rs) = (r.id < n) × Below r.id rs

-- No idempotency key is taken twice.
abbrev pub UniqueKeys : List Row → Type 0
UniqueKeys [] = Unit {0}
UniqueKeys (r ∷ rs) = (conflict_row r.idem_key rs ≡ none) × UniqueKeys rs

pub record Inv (targets : List Text) (db : Db) : Type 0 where
  pub queued : EveryQueued targets db.messages db.outbox
  pub ordered : Below (db.seq + 1) db.messages
  pub unique : UniqueKeys db.messages

EveryQueued-Extends :
    (targets : List Text) (rs : List Row) (ts ts' : List Task)
    → Extends ts ts'
    → EveryQueued targets rs ts
    → EveryQueued targets rs ts'
EveryQueued-Extends targets [] ts ts' x q = tt
EveryQueued-Extends targets (r ∷ rs) ts ts' x q =
    (Queued-Extends ts ts' r.id targets x q.0, EveryQueued-Extends targets rs ts ts' x q.1)

Below-mono : (m n : ℕ) (rs : List Row) → m ≤ n → Below m rs → Below n rs
Below-mono m n [] h b = tt
Below-mono m n (r ∷ rs) h b = (omega arith, b.1)

Change-Inv :
    (targets : List Text) (r : Row) (db db' : Db)
    → r.id ≡ db.seq + 1
    → Change targets r db db'
    → Inv targets db
    → Inv targets db'
Change-Inv targets r db db' i (unchanged m o s) v = record {
  queued = rw (m, o) v.queued;
  ordered = rw m (Below-mono (db.seq + 1) (db'.seq + 1) db.messages (omega arith) v.ordered);
  unique = rw m v.unique;
}
Change-Inv targets r db db' i (added m s q x k) v = record {
  queued = rw m (q, EveryQueued-Extends targets db.messages db.outbox db'.outbox x v.queued);
  ordered = rw (m, s) (omega arith, rw i v.ordered);
  unique = rw m (k, v.unique);
}

-- One call of Create, with what fails in it.
pub record Request : Type 0 where
  pub faults : Faults
  pub now : ℕ
  pub text : Text
  pub key : Text

module _ (hash : Text → Text) (json : Json) (targets : List Text) where
  unfoldable pub creates : List Request → Db → Db
  creates [] db = db
  creates (q ∷ qs) db = creates qs (create hash json targets q.faults q.now q.text q.key db).1

  -- The transactional outbox: over any history of calls, with any faults, every stored message keeps
  -- a task for every target, identifiers stay distinct, and so do idempotency keys.
  pub creates-Inv : (qs : List Request) (db : Db) → Inv targets db → Inv targets (creates qs db)
  unfolding creates
  creates-Inv [] db v = v
  creates-Inv (q ∷ qs) db v =
      creates-Inv qs (create hash json targets q.faults q.now q.text q.key db).1 (
        Change-Inv targets _ db _ refl
          (create-Change hash json targets q.faults q.now q.text q.key db) v)
