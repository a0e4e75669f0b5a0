-- ===== src/Tests/Gateway.antt =====
-- The gateway and the chaos proxy at concrete inputs.
use otus_app.Base.{
  Bool, ℕ, ◌+◌, ◌/◌, ◌≡◌, refl, false, true, Option, none, some, List, [], ◌∷◌, length, max,
  if◌then◌else◌,
}
use otus_app.Base.Int.{pos, pos_part}
use otus_app.Text.{Text, codes, text_eq, lookup, is_empty}
use otus_app.Text.Trim.{is_space, trim_space}
use otus_app.Text.Headers.{Header, header_value, values_of}
use otus_app.Messaging.{Message, Store, ok, validate_text, created_event}
use otus_app.Storage.Tables.{Db, Json, find_row, find_task}
use otus_app.Storage.Messages.{
  create, after_insert, insert_row, nullif_empty, publish, commit, store_tasks, enqueue_all,
  new_row, new_task,
}
use otus_app.Http.{message_body, write_json}
use otus_app.Rpc.{Server, Reply, internal}
use otus_app.Gateway.{
  Incoming, Outgoing, outgoing, post, idempotency_key, forwarded_for, is_hop_header,
}
use otus_app.Gateway.Forwarding.{outgoing-header}
use otus_app.Gateway.Calls.{grpc_create, Got, status, metadata_pair}
use otus_app.Gateway.Calls.Statuses
use otus_app.Gateway.Calls.Statuses.{grpc_create-create_decoded}
use otus_app.ChaosProxy.{Metrics, copy_throttled, copy_chunks, chunk_size, run_attempts}
use otus_app.ChaosProxy.Throttle.{Bounded, copy_throttled-eq}
use otus_app.ChaosProxy.Repeat
use otus_app.ChaosProxy.Repeat.{World, fine, repeat_once}

abbrev no_split : Text → Option Text
no_split address = none

abbrev incoming : Incoming
incoming = record {
  header = (codes "Te", codes "trailers") ∷ (codes "Accept", codes "*/*") ∷ [];
  remote_addr = codes "10.0.0.1:5";
  body = codes "x";
}

outgoing-header_example :
    (let sent = (outgoing no_split (codes "k1") post incoming).header in
      (header_value idempotency_key sent ≡ (
        if is_empty (header_value idempotency_key incoming.header)
        then codes "k1"
        else header_value idempotency_key incoming.header))
      × ((j : Text) → is_hop_header j ≡ true → values_of j sent ≡ [])
      × ((j : Text)
          → is_hop_header j ≡ false
          → text_eq idempotency_key j ≡ false
          → text_eq forwarded_for j ≡ false
          → values_of j sent ≡ values_of j incoming.header))
outgoing-header_example =
    outgoing-header no_split (codes "k1") post incoming (unfold text_eq in refl)

abbrev hello : ℕ → Text → Message
hello id text = record { id = id; text = text; checksum = []; checksum_ok = true; created_at = 0 }

abbrev counting : Store ℕ
counting = record {
  create = λ deadline text key w. (ok (hello (w + 1) text), w + 1);
  list = λ deadline w. (ok [], w);
}

abbrev server : Server ℕ
server = record { world = 7; created = 0 }

-- A transport that refuses metadata that is not sendable, and authorization with one valid token.
abbrev transport :
    (Header → Text → Server ℕ → Reply Message × Server ℕ)
    → Header
    → Text
    → Server ℕ
    → Got Message × Server ℕ
transport service md text s =
    if Statuses.is_sendable md
    then (Statuses.got (service md text s).0, (service md text s).1)
    else (status (internal (codes "malformed")), s)

abbrev transport_fits : Text → Bool
transport_fits text = true

transport-Delivers : Statuses.Delivers counting transport_fits transport
transport-Delivers service md text s sendable fit = rw sendable refl

abbrev auth : Statuses.Authorization
auth = some (λ options raw. if text_eq raw (codes "t") then none else some 1, codes "otus")

abbrev post_header : Header
post_header = (codes "Authorization", codes "Bearer t") ∷ (codes "Idempotency-Key", codes "k") ∷ []

grpc_create-create_decoded_example :
    (grpc_create
      (transport (Statuses.served counting auth))
      (some (codes "hi"))
      post_header
      server).0
    ≡ (Statuses.http_create counting auth (codes "hi") post_header 7).0
grpc_create-create_decoded_example =
    grpc_create-create_decoded counting transport_fits transport auth (codes "hi") post_header
      server transport-Delivers
      (unfold otus_app.Gateway.Calls.with_auth metadata_pair header_value is_empty lookup text_eq in
        refl)
      refl

copied_whole :
    (copy_throttled (λ n. none) (pos 20) (codes "hello") ≡ codes "hello")
    × Bounded
        (max 1 (pos_part (pos 20) / 10))
        (copy_chunks (λ n. none) (chunk_size (pos 20)) (length (codes "hello")) 0 (codes "hello"))
copied_whole = copy_throttled-eq (pos 20) (codes "hello")

-- A POST that the proxy repeats, with one broker behind the app.
abbrev json : Json
json = record {
  marshal = λ ev. some ev.text;
  unmarshal =
      λ raw. some (record { id = 1; text = raw; checksum = []; created_at = 0; producer = [] });
}

abbrev hash : Text → Text
hash t = t

abbrev world : World
world = record {
  db = record { seq = 0; messages = []; outbox = [] };
  coming = (5, fine) ∷ (6, fine) ∷ [];
}

abbrev stored : Db
stored = record {
  seq = 1;
  messages = new_row 1 (codes "hi") (codes "hi") (some (codes "k")) 5 ∷ [];
  outbox = new_task 1 (codes "kafka") (codes "hi") 5 ∷ [];
}

abbrev hi : Message
hi = record { id = 1; text = codes "hi"; checksum = codes "hi"; checksum_ok = true; created_at = 5 }

abbrev request : Outgoing
request = record { method = post; header = (idempotency_key, codes "k") ∷ []; body = codes "hi" }

abbrev metrics : Metrics
metrics = record {
  to_app = 0;
  from_app = 0;
  dropped = 0;
  failed = 0;
  passed = 0;
  drops = 0;
  delays = 0;
  repeats = 0;
  throttles = 0;
}

abbrev one_target : List Text
one_target = codes "kafka" ∷ []

created_first :
    create hash json one_target fine 5 (codes "hi") (codes "k") world.db ≡ (ok hi, stored)
unfolding create after_insert insert_row nullif_empty publish commit store_tasks enqueue_all
    validate_text trim_space is_space is_empty find_row find_task text_eq created_event
created_first = refl

repeat_once_example :
    (let r =
        run_attempts
          (Repeat.app hash json one_target (λ b. some b) (λ x. []))
          request
          2
          metrics
          world in
      (m' : Message) × (r.0
        ≡ some (
            Repeat.reply_of hash json one_target
              (λ b. some b)
              (λ x. [])
              (write_json [] 201 (message_body m'))))
      × (m'.id ≡ 1)
      × (m'.text ≡ codes "hi")
      × (r.1.1.db.messages ≡ stored.messages)
      × (r.1.1.db.outbox ≡ stored.outbox))
repeat_once_example =
    repeat_once hash json one_target (λ b. some b) (λ x. []) request (codes "hi") (codes "k")
      metrics world hi stored refl (unfold header_value lookup text_eq in refl)
      (unfold is_empty in refl) (unfold validate_text trim_space is_space is_empty in refl)
      created_first (refl, refl, refl, refl)
