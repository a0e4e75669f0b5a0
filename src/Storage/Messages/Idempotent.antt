-- ===== src/Storage/Messages/Idempotent.antt =====
-- Repeating a call of Create with the same idempotency key.
use otus_app.Base.{
  ℕ, ◌+◌, ◌≡◌, ◌≢◌, refl, sym, true, false, Option, none, some, List, [], ◌∷◌, arith, if◌then◌else◌,
  Bool-cases, Option-cases, inl, inr, ◌∙◌,
}
use otus_app.Text.{Text, text_eq, text_eq_refl, text_eq_iff, text_eq_of_eq, is_empty}
use otus_app.Messaging.{
  Result, ok, err, idempotency_conflict, Message, created_event, validate_text,
}
use otus_app.Storage.Tables.{Row, Task, Db, Fate, done, refused, lost, Json, find_row}
use otus_app.Storage.Messages.{
  Faults, new_row, nullif_empty, insert_row, commit, replay, publish, create, enqueue_all,
  message_of, store_tasks, after_insert,
}
use otus_app.Storage.Messages.Atomic.{Change, unchanged, added, create-Change, Request, creates}

-- No statement of the call fails, and neither does its commit.
abbrev pub IsFaultless : Faults → Type 0
IsFaultless f = (f.begin ≡ none) × (f.insert ≡ none) × (f.select ≡ none) × (f.commit ≡ done)

find_row-Change :
    (targets : List Text) (r x : Row) (key : Text) (db db' : Db)
    → Change targets r db db'
    → find_row key db.messages ≡ some x
    → find_row key db'.messages ≡ some x
find_row-Change targets r x key db db' (unchanged m o s) h = rw m h
find_row-Change targets r x key db db' (added m s q e k) h = rw m (older (r.idem_key) refl)
  where
    older : (o : Option Text) → r.idem_key ≡ o → find_row key (r ∷ db.messages) ≡ some x
    older none i = unfold find_row in ground arith
    older (some j) i = unfold find_row in ground (arith, text_eq_iff j key)

module _ (hash : Text → Text) (json : Json) (targets : List Text) where
  find_row-creates :
      (qs : List Request) (x : Row) (key : Text) (db : Db)
      → find_row key db.messages ≡ some x
      → find_row key (creates hash json targets qs db).messages ≡ some x
  unfolding creates
  find_row-creates [] x key db h = h
  find_row-creates (q ∷ qs) x key db h =
      let db' = (create hash json targets q.faults q.now q.text q.key db).1 in
      find_row-creates qs x key db' (
        find_row-Change targets _ x key db db'
          (create-Change hash json targets q.faults q.now q.text q.key db) h)

  -- A message answers for a row of the table.
  abbrev pub Answers : Text → Text → Message → List Row → Type 0
  Answers key text m rows =
      (x : Row) × (find_row key rows ≡ some x)
      × (x.text ≡ text)
      × (m.id ≡ x.id)
      × (m.text ≡ x.text)
      × (m.checksum ≡ x.text_hash)
      × (m.created_at ≡ x.created_at)
      × (m.checksum_ok ≡ text_eq x.text_hash (hash x.text))

  commit_ok :
      (fate : Fate) (db db' d : Db) (m' m : Message)
      → commit fate db db' m' ≡ (ok m, d)
      → (m ≡ m') × (d ≡ db')
  unfolding commit
  commit_ok done db db' d m' m h = ground arith
  commit_ok (refused e) db db' d m' m h = absurd (ground arith)
  commit_ok (lost e) db db' d m' m h = absurd (ground arith)

  replay_ok :
      (f : Faults) (text key : Text) (db db' d : Db) (m : Message)
      → replay hash json targets f text key db db' ≡ (ok m, d)
      → Answers key text m d.messages
  unfolding replay
  replay_ok f text key db db' d m h = elim (Option-cases f.select) [
    | inr (e, q) ↦ absurd (ground arith)
    | inl q ↦ elim (Option-cases (find_row key db'.messages)) [
      | inl p ↦ absurd (ground arith)
      | inr (x, p) ↦ elim (Bool-cases (text_eq x.text text)) [
        | inr n ↦ absurd (ground arith)
        | inl y ↦
            let m' = message_of x (text_eq x.text_hash (hash x.text)) in
            let (em, ed) = commit_ok f.commit db db' d m' m (ground arith) in
            rw (em, ed) (x, p, (text_eq_iff x.text text).0 y, refl, refl, refl, refl, refl)
      ]
    ]
  ]

  publish_ok :
      (f : Faults) (now : ℕ) (key : Text) (r : Row) (db db' d : Db) (m : Message)
      → publish hash json targets f now r db db' ≡ (ok m, d)
      → find_row key db'.messages ≡ some r
      → r.text_hash ≡ hash r.text
      → Answers key r.text m d.messages
  unfolding publish
  publish_ok f now key r db db' d m h k same =
      elim (Option-cases (json.marshal (created_event (message_of r true)))) [
        | inl e ↦ absurd (ground arith)
        | inr (payload, e) ↦
            stored (enqueue_all f r.id payload now targets db'.outbox) (ground arith)
      ]
    where
      stored :
          (q : Result (List Task))
          → store_tasks f.commit r db db' q ≡ (ok m, d)
          → Answers key r.text m d.messages
      stored (err e) g = absurd (unfold store_tasks in ground arith)
      stored (ok ts) g =
          let (em, ed) =
            commit_ok f.commit db (record db' { outbox = ts }) d (message_of r true) m
              (unfold store_tasks in g) in
          rw (em, ed)
            (r, k, refl, refl, refl, refl, refl, rw same (sym (text_eq_refl (hash r.text))))

  after_insert_ok :
      (f : Faults) (now : ℕ) (text key : Text) (db d : Db) (m : Message)
      → is_empty key ≡ false
      → after_insert hash json targets f now text key db
          (insert_row text (hash text) (nullif_empty key) now db)
        ≡ (ok m, d)
      → Answers key text m d.messages
  unfolding insert_row nullif_empty
  after_insert_ok f now text key db d m ne h = elim (Option-cases (find_row key db.messages)) [
    | inr (x, p) ↦
        replay_ok f text key db (record db { seq = db.seq + 1 }) d m
          (unfold after_insert in ground arith)
    | inl p ↦
        let r = new_row (db.seq + 1) text (hash text) (some key) now in
        publish_ok f now key r db (record db { seq = db.seq + 1; messages = r ∷ db.messages }) d m
          (unfold after_insert in ground arith)
          (unfold find_row in ground (arith, text_eq_refl key)) refl
  ]

  -- A call that returned a message has stored it under its key.
  pub create_ok :
      (f : Faults) (now : ℕ) (text key : Text) (db d : Db) (m : Message)
      → is_empty key ≡ false
      → create hash json targets f now text key db ≡ (ok m, d)
      → Answers key text m d.messages
  unfolding create
  create_ok f now text key db d m ne h = elim (Option-cases (validate_text text)) [
    | inr (x, e) ↦ absurd (ground arith)
    | inl e ↦ elim (Option-cases f.begin) [
      | inr (x, e') ↦ absurd (ground arith)
      | inl e' ↦ elim (Option-cases f.insert) [
        | inr (x, c) ↦ absurd (ground arith)
        | inl c ↦ after_insert_ok f now text key db d m ne (ground arith)
      ]
    ]
  ]

  -- A call in which nothing fails, for a key that is taken.
  create_again :
      (f : Faults) (now : ℕ) (text key : Text) (db : Db) (x : Row)
      → IsFaultless f
      → validate_text text ≡ none
      → is_empty key ≡ false
      → find_row key db.messages ≡ some x
      → create hash json targets f now text key db ≡ (
        (if text_eq x.text text
            then ok (message_of x (text_eq x.text_hash (hash x.text)))
            else err idempotency_conflict),
        record db { seq = db.seq + 1 },
      )
  unfolding create after_insert insert_row nullif_empty replay commit
  create_again f now text key db x ok_f v ne h = ground arith

  -- Once Create with a non-empty key has returned a message, after any further calls with any
  -- faults, a call with that key in which nothing fails changes neither table: for the same text
  -- it returns the same message in all its fields, the verdict on its checksum included, and for
  -- any other valid text it is refused with ErrIdempotencyConflict.
  pub create_idempotent :
      (f g : Faults) (now now' : ℕ) (text text' key : Text) (db db₁ : Db) (m : Message)
      (qs : List Request)
      → is_empty key ≡ false
      → create hash json targets f now text key db ≡ (ok m, db₁)
      → IsFaultless g
      → validate_text text' ≡ none
      → let db₂ = creates hash json targets qs db₁ in
        let (res, db₃) = create hash json targets g now' text' key db₂ in
        (db₃.messages ≡ db₂.messages)
        × (db₃.outbox ≡ db₂.outbox)
        × (text' ≡ text
            → (m' : Message) × (res ≡ ok m')
              × (m'.id ≡ m.id)
              × (m'.text ≡ m.text)
              × (m'.checksum ≡ m.checksum)
              × (m'.created_at ≡ m.created_at)
              × (m'.checksum_ok ≡ m.checksum_ok))
        × (text' ≢ text → res ≡ err idempotency_conflict)
  create_idempotent f g now now' text text' key db db₁ m qs ne h good v =
      let (x, p, et, ei, em, ec, ea, eo) = create_ok f now text key db db₁ m ne h in
      let db₂ = creates hash json targets qs db₁ in
      let again = create_again g now' text' key db₂ x good v ne (find_row-creates qs x key db₁ p) in
      rw again (
        refl,
        refl,
        λ e. (
          message_of x (text_eq x.text_hash (hash x.text)),
          rw (text_eq_of_eq x.text text' (et ∙ sym e)),
          sym ei,
          sym em,
          sym ec,
          sym ea,
          sym eo,
        ),
        λ n. ground (arith, text_eq_iff x.text text'),
      )
