-- ===== src/Tests/Consumer.antt =====
-- The consumer, the feed as a set and the search index at concrete inputs.
use otus_app.Base.{
  ℕ, ◌+◌, ◌-◌, ◌≡◌, refl, true, false, Bool, Option, none, some, List, [], ◌∷◌, arith, length, ap,
  ==_iff, Bool-cases, inl, inr, replicate, ◌==◌, if◌then◌else◌, ◌&&◌,
}
use otus_app.Text.{Text, codes, text_eq, text_eq_refl}
use otus_app.Messaging.{MessageCreated}
use otus_app.Cassandra.{Tables, applied, refused, unanswered, get_event_by_id}
use otus_app.Cassandra.View.{sent_row, Saving, saves, is_member, saves-is_member}
use otus_app.Resilience.Jitter.{IsRandom}
use otus_app.Broker.Kafka
use otus_app.Broker.Kafka.{Fetch, fetched, fetch_failed, consume}
use otus_app.Search.{
  Call, Document, FileDoc, Client, no_answer, answer, ensure, after_exists, created, file_filters,
}
use otus_app.Search.Ready.{Truthful, ensure-Exists}
use otus_app.Search.Filters.{passes_all, is_selected, file_filters-is_selected}
use otus_app.Consumer.{Round, Supervisor, supervise}
use otus_app.Consumer.Supervision.{IsTidy, StayAlive, readers, supervise-IsTidy, supervise-alive}
use otus_app.Consumer.Delivery
use otus_app.Consumer.Delivery.{World, Holding, consume-IsFaithful, IsFaithful}

abbrev event : ℕ → MessageCreated
event id = record { id = id; text = codes "hi"; checksum = []; created_at = 1500000; producer = [] }

abbrev day : ℕ → Text
day t = codes "2026-01-01"

abbrev empty_tables : Tables
empty_tables = record { feed = []; by_id = [] }

abbrev deliveries : List Saving
deliveries =
    record { event = event 2; fate = unanswered 9 }
    ∷ record { event = event 1; fate = refused 9 }
    ∷ record { event = event 2; fate = applied }
    ∷ []

saves-is_member_example : get_event_by_id 2 (saves day (codes "kafka") deliveries empty_tables) ≡ (
    if is_member 2 deliveries
    then some (sent_row (event 2) (codes "kafka"))
    else get_event_by_id 2 empty_tables)
saves-is_member_example =
    saves-is_member day (codes "kafka") event deliveries 2 empty_tables
      (unfold otus_app.Cassandra.View.AllOf in (refl, (refl, (refl, tt))))

-- An index as a function from ids.
abbrev Docs : Type 0
Docs = ℕ → Option Document

abbrev put : Document → Docs → Option ℕ × Docs
put doc docs = (none, λ id. if doc.id == id then some doc else docs id)

abbrev Holds : Document → Docs → Type 0
Holds doc docs = docs doc.id ≡ some doc

put-kept :
    (doc other : Document) (docs : Docs)
    → (other.id ≡ doc.id → other ≡ doc)
    → Holds doc docs
    → Holds doc (put other docs).1
put-kept doc other docs same h = elim (Bool-cases (other.id == doc.id)) [
  | inl b ↦ rw b (ap some (same ((==_iff other.id doc.id).0 b)))
  | inr b ↦ rw b h
]

put-Holding : Holding put Holds
put-Holding = record {
  held = λ doc docs h. rw ((==_iff doc.id doc.id).1 refl) refl;
  kept = put-kept;
}

-- Records that name an id by their length.
abbrev decode : Text → Option MessageCreated
decode raw = some (event (length raw))

decode-event : (ev : MessageCreated) → decode (codes "ab") ≡ some ev → event ev.id ≡ ev
decode-event ev h = rw⁻¹ (some_inj h) refl
  where
    some_inj : {a b : MessageCreated} → some a ≡ some b → a ≡ b
    some_inj h = cc h

abbrev world : World Docs
world = record { tables = empty_tables; fates = unanswered 9 ∷ []; docs = λ id. none }

abbrev consumer : Kafka.Consumer (World Docs)
consumer = record {
  world = world;
  handled = [];
  committed = [];
  ok_count = 0;
  error_count = 0;
  malformed_count = 0;
}

abbrev fetches : List Fetch
fetches =
    fetched (record { partition = 0; offset = 4; value = codes "ab" }) none
    ∷ fetch_failed
    ∷ fetched (record { partition = 0; offset = 4; value = codes "ab" }) none
    ∷ []

consume-IsFaithful_example :
    IsFaithful day put
      (codes "kafka")
      Holds
      put-Holding
      event
      decode
      (consume decode (Delivery.handle day put (codes "kafka")) fetches consumer).1
consume-IsFaithful_example =
    consume-IsFaithful day put (codes "kafka") Holds put-Holding event decode fetches consumer
      (unfold Delivery.CarryOwn in (decode-event, (decode-event, tt)))
      (unfold Delivery.AreDelivered in tt)

-- A reader that hands one event to its handler and then fails.
abbrev round : Round ℕ ℕ
round = record {
  alive = true;
  start = none;
  read = λ handle s. (some 7, (handle (event 1) s).1);
  alive_after = true;
  waited = true;
}

abbrev refused_round : Round ℕ ℕ
refused_round = record round { start = some 3 }

abbrev supervisor : Supervisor ℕ
supervisor = record { attempt = 0; world = 0; opened = 0; closed = 0; restarts = 0; pauses = [] }

abbrev middle : ℕ → ℕ
middle n = n - 1

middle-IsRandom : IsRandom middle
middle-IsRandom n h = omega arith

abbrev accept : MessageCreated → ℕ → Option ℕ × ℕ
accept ev n = (none, n + 1)

supervise-IsTidy_example : IsTidy (supervise middle accept (round ∷ refused_round ∷ []) supervisor)
supervise-IsTidy_example =
    supervise-IsTidy middle accept middle-IsRandom (round ∷ refused_round ∷ []) supervisor
      (unfold otus_app.Consumer.Supervision.AreBackoffs in (refl, tt))

supervise-alive_example :
    (let s = supervise middle accept (round ∷ refused_round ∷ []) supervisor in
      (s.opened ≡ 0 + readers (round ∷ refused_round ∷ [])) × (length s.pauses ≡ 2))
supervise-alive_example =
    supervise-alive middle accept middle-IsRandom (round ∷ refused_round ∷ []) supervisor
      (unfold StayAlive in ((refl, refl, refl, (refl, refl, refl, tt))))

-- A cluster whose state is the list of its indices.
unfoldable is_there : Text → List Text → Bool
is_there name [] = false
is_there name (n ∷ ns) = if text_eq n name then true else is_there name ns

abbrev cluster : Client (List Text)
cluster = record {
  exists = λ name w. (answer (if is_there name w then 200 else 404) false [], w);
  create = λ name mapping w. (answer 200 false [], name ∷ w);
  put = λ name id body refresh w. (answer 201 false [], w);
  search = λ name body w. (no_answer 1, w);
  health = λ w. (no_answer 1, w);
}

abbrev Has : Text → List Text → Type 0
Has name w = is_there name w ≡ true

there_if_200 :
    (b e : Bool) (status : ℕ) (body : Text) (w w' : List Text)
    → ◌≡◌ {A = Call × List Text}
        (answer (if b then 200 else 404) false [], w)
        (answer status e body, w')
    → (status == 200) ≡ true
    → (b ≡ true) × (w ≡ w')
there_if_200 true e status body w w' h k = (refl, ap (λ p. p.1) h)
there_if_200 false e status body w w' h k = absurd (ground arith)

now_there : (name : Text) (w : List Text) → is_there name (name ∷ w) ≡ true
unfolding is_there
now_there name w = rw (text_eq_refl name) refl

cluster-Truthful : Truthful cluster Has
cluster-Truthful = record {
  found = λ name w w' status e body h k.
      let (b, same) = there_if_200 (is_there name w) e status body w w' h k in rw⁻¹ same b;
  made = λ name mapping w w' status body h. rw⁻¹ (ap (λ p. p.1) h) (now_there name w);
  taken = λ name mapping w w' status body h k. absurd (ground arith);
}

ensure-Exists_example : Has (codes "m") (ensure cluster (codes "m") (codes "{}") []).1
unfolding ensure after_exists is_there created
ensure-Exists_example = ensure-Exists cluster Has cluster-Truthful (codes "m") (codes "{}") [] refl

file : FileDoc
file = record {
  key = codes "a";
  backend = codes "s3";
  size = otus_app.Base.Int.pos 3;
  version_id = [];
  tags = (codes "k", codes "v") ∷ [];
}

file_filters-is_selected_example :
    passes_all file (file_filters (codes "k") [] (codes "s3"))
    ≡ is_selected (codes "k") [] (codes "s3") file
file_filters-is_selected_example = file_filters-is_selected (codes "k") [] (codes "s3") file
