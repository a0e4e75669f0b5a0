-- ===== src/Tests/Outbox.antt =====
-- The life of a worker at a concrete input: a publication that fails, then one that succeeds.
use otus_app.Base.{◌*◌, ◌-◌, ◌≡◌, refl, true, false, none, some, [], ◌∷◌, arith}
use otus_app.Resilience.Jitter.{second, backoff, jitter, grow}
use otus_app.Text.{codes, text_eq}
use otus_app.Messaging.{other}
use otus_app.Storage.Tables.{done, Json, find_task, update_where, count_where}
use otus_app.Storage.Messages.{new_task}
use otus_app.Storage.Outbox.{claim, candidate, complete, retry, holds_lease, outbox_stats}
use otus_app.Outbox.{
  World, Worker, Input, run, turn, after_claim, handle, finish, finish_done, finish_failed,
  deliver_event, attempt_publish, observe,
}
use otus_app.Outbox.Steps.{Inv, After, Step-refl}
use otus_app.Outbox.Guarantee.{run-Step}

abbrev json : Json
json = record {
  marshal = λ ev. some ev.text;
  unmarshal =
      λ raw. some (record { id = 1; text = raw; checksum = []; created_at = 0; producer = [] });
}

abbrev new_worker : Worker
new_worker = record {
  publisher = false;
  attempt = 0;
  claim_attempt = 0;
  next_stats = 0;
  stats = none;
  storage_errors = 0;
  deliveries_ok = 0;
  deliveries_error = 0;
  pauses = [];
}

abbrev world : World
world = record { tasks = new_task 1 (codes "nats") (codes "hi") 5 ∷ []; published = [] }

abbrev good_turn : Input
good_turn = record {
  stats_now = 100 * second;
  stats_after = 100 * second;
  stats_fault = none;
  token = codes "b";
  claim_now = 100 * second;
  claim_fate = done;
  factory = (none, true);
  publish = none;
  acknowledged = false;
  finish_now = 101 * second;
  finish_fate = done;
  rand = λ n. n - 1;
  waits = true;
  meanwhile = λ s. s;
  afterwards = λ s. s;
}

abbrev bad_turn : Input
bad_turn = record good_turn {
  stats_now = 10 * second;
  token = codes "a";
  claim_now = 10 * second;
  publish = some (other 5);
  finish_now = 11 * second;
}

delivered_second :
    let (w, s) = run json (codes "nats") (bad_turn ∷ good_turn ∷ []) (new_worker, world) in
    (w.deliveries_ok ≡ 1)
    × (w.deliveries_error ≡ 1)
    × (w.attempt ≡ 0)
    × (s.published
        ≡ (
          codes "nats",
          record { id = 1; text = codes "hi"; checksum = []; created_at = 0; producer = [] },
        )
          ∷ [])
unfolding run turn after_claim handle finish finish_done finish_failed deliver_event attempt_publish
    observe claim candidate complete retry holds_lease outbox_stats text_eq update_where count_where
    backoff jitter grow
delivered_second = (refl, refl, refl, refl)

world-Inv : Inv json world
unfolding find_task
world-Inv = record { unique = (refl, tt); delivered = λ id target x f n. absurd (n (ground arith)) }

run-Step_example :
    After json world (run json (codes "nats") (bad_turn ∷ good_turn ∷ []) (new_worker, world)).1
run-Step_example =
    run-Step json (codes "nats") (bad_turn ∷ good_turn ∷ []) new_worker world
      ((Step-refl json, Step-refl json), ((Step-refl json, Step-refl json), tt)) world-Inv
