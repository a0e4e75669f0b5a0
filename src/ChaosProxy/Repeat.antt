-- ===== src/ChaosProxy/Repeat.antt =====
-- The proxy that repeats a POST in front of the app: gateway, proxy, handler and storage together.
use otus_app.Base.{ℕ, ◌≡◌, refl, false, List, [], ◌∷◌, Option, none, some, ap, ◌∙◌}
use otus_app.Text.{Text, is_empty}
use otus_app.Text.Headers.{header_value}
use otus_app.Messaging.{Message, Store, Result, ok, validate_text}
use otus_app.Messaging.Validation.{service_create-valid}
use otus_app.Storage.Tables.{Db, Json, done}
use otus_app.Storage.Messages
use otus_app.Storage.Messages.{create, Faults}
use otus_app.Storage.Messages.Idempotent.{IsFaultless, create_idempotent}
use otus_app.Http.{Response, message_body, write_json}
use otus_app.Http.Messages.{
  Api, create_decoded, create_valid, after_create, forget_cached, record_created,
}
use otus_app.Gateway.{Outgoing, idempotency_key}
use otus_app.ChaosProxy.{Metrics, Reply, run_attempts, after_attempt}

-- The database, and for each coming statement of Create its time and what fails in it; after these
-- nothing fails.
pub record World : Type 0 where
  pub db : Db
  pub coming : List (ℕ × Faults)

abbrev pub fine : Faults
fine = record { begin = none; insert = none; select = none; enqueue = λ t. none; commit = done }

abbrev next_env : List (ℕ × Faults) → ℕ × Faults
next_env [] = (0, fine)
next_env (e ∷ es) = e

abbrev tail : List (ℕ × Faults) → List (ℕ × Faults)
tail [] = []
tail (e ∷ es) = es

-- Two attempts that are both answered.
two_attempts :
    {W : Type 0} (app : Outgoing → W → Option Reply × W) (req : Outgoing) (metrics : Metrics)
    (w w1 w2 : W) (x y : Reply)
    → app req w ≡ (some x, w1)
    → app req w1 ≡ (some y, w2)
    → (let r = run_attempts app req 2 metrics w in (r.0 ≡ some y) × (r.1.1 ≡ w2))
unfolding run_attempts after_attempt
two_attempts app req metrics w w1 w2 x y a b = rw a (rw b (refl, refl))

module _ (hash : Text → Text) (json : Json) (targets : List Text) where
  -- The store of the app on this world.
  abbrev pub stored : Result Message × Db → World → Result Message × World
  stored r w = (r.0, record w { db = r.1; coming = tail w.coming })

  abbrev pub store : Store World
  store = record {
    create = λ deadline text key w.
        stored (create hash json targets (next_env w.coming).1 (next_env w.coming).0 text key w.db)
          w;
    list = λ deadline w. (ok [], w);
  }

  abbrev pub api : Api World
  api = record {
    store = store;
    ready = none;
    audit_log = none;
    cache = none;
    count_created = λ w. w;
  }

  module _ (decode : Text → Option Text) (render : Response → Text) where
    abbrev pub reply_of : Response → Reply
    reply_of r = record { response = r; bytes = render r }

    -- POST /messages at the app, without its authorization and its limiter.
    abbrev pub handled : Response × World → Option Reply × World
    handled r = (some (reply_of r.0), r.1)

    abbrev pub app : Outgoing → World → Option Reply × World
    app req w =
        handled (create_decoded api (decode req.body) (header_value idempotency_key req.header) w)

    -- A pair with a known first component.
    repaired : (m : Message) (r : Result Message × Db) → r.0 ≡ ok m → r ≡ (ok m, r.1)
    repaired m (r, db) e = rw e refl

    -- A first attempt that created the message.
    first_attempt :
        (req : Outgoing) (text key : Text) (w : World) (m : Message) (db' : Db)
        → decode req.body ≡ some text
        → header_value idempotency_key req.header ≡ key
        → validate_text text ≡ none
        → create hash json targets (next_env w.coming).1 (next_env w.coming).0 text key w.db
          ≡ (ok m, db')
        → app req w ≡ (
          some (reply_of (write_json [] 201 (message_body m))),
          record w { db = db'; coming = tail w.coming },
        )
    unfolding create_decoded create_valid after_create forget_cached record_created
    first_attempt req text key w m db' d k v c =
        let served =
          service_create-valid store text key w v
          ∙ ap (λ r. stored r w)
              {x = create hash json targets (next_env w.coming).1 (next_env w.coming).0 text key
                w.db}
              {y = (ok m, db')} c in
        rw (d, k, v) (rw served refl)

    -- The chaos proxy in front of the HTTP API and its database: after a request with a valid
    -- text and a non-empty Idempotency-Key created a message, the second attempt that the proxy
    -- makes, if nothing fails in it, is answered with status 201 and a message of the same id and
    -- text, and the tables of messages and of outbox tasks are those that the first attempt left.
    pub repeat_once :
        (req : Outgoing) (text key : Text) (metrics : Metrics) (w : World) (m : Message) (db' : Db)
        → decode req.body ≡ some text
        → header_value idempotency_key req.header ≡ key
        → is_empty key ≡ false
        → validate_text text ≡ none
        → create hash json targets (next_env w.coming).1 (next_env w.coming).0 text key w.db
          ≡ (ok m, db')
        → IsFaultless (next_env (tail w.coming)).1
        → (let r = run_attempts app req 2 metrics w in
            (m' : Message) × (r.0 ≡ some (reply_of (write_json [] 201 (message_body m'))))
            × (m'.id ≡ m.id)
            × (m'.text ≡ m.text)
            × (r.1.1.db.messages ≡ db'.messages)
            × (r.1.1.db.outbox ≡ db'.outbox))
    unfolding otus_app.Storage.Messages.Atomic.creates
    repeat_once req text key metrics w m db' d k ne v c good =
        let env = next_env (tail w.coming) in
        let (sm, so, same, _) =
          create_idempotent hash json targets (next_env w.coming).1 env.1 (next_env w.coming).0
            env.0 text text key w.db db' m [] ne c good v in
        let (m', e, i, t, _, _, _) = same refl in
        let w' = record w { db = db'; coming = tail w.coming } in
        let db2 = (create hash json targets env.1 env.0 text key db').1 in
        let second_world = record w' { db = db2; coming = tail (tail w.coming) } in
        let second =
          first_attempt req text key w' m' (create hash json targets env.1 env.0 text key db').1 d k
            v (repaired m' (create hash json targets env.1 env.0 text key db') e) in
        let (r, u) =
          two_attempts app req metrics w w' second_world
            (reply_of (write_json [] 201 (message_body m)))
            (reply_of (write_json [] 201 (message_body m')))
            (first_attempt req text key w m db' d k v c) second in
        (m', r, i, t, ap (λ x. x.db.messages) u ∙ sm, ap (λ x. x.db.outbox) u ∙ so)
