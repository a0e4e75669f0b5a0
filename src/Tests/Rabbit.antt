-- ===== src/Tests/Rabbit.antt =====
-- RabbitMQ, NATS and the topic of Kafka at concrete inputs.
use otus_app.Base.{
  ℕ, ◌+◌, ◌≡◌, refl, true, false, Option, none, some, List, [], ◌∷◌, if◌then◌else◌, ltb, inl,
}
use otus_app.Text.{Text, codes}
use otus_app.Messaging.{MessageCreated}
use otus_app.Broker.Kafka.Topic
use otus_app.Broker.Kafka.Topic.{
  at_address, topic_config, ensure_topic, WasCreated, ensure_topic-Tried,
}
use otus_app.Broker.Deliveries.{Delivery, Consumer}
use otus_app.Broker.Deliveries.Acks.{Acked}
use otus_app.Broker.Nats.{message, failed, consume_messages}
use otus_app.Broker.Nats.Acks.{consume_messages-Acked}
use otus_app.Broker.Rabbit.{
  Amqp, Conn, connected, acked, Session, consume_queue, publish_payload, close_locked, close_socket,
  open_channel, try_urls, channel, is_alive, after_dial, after_channel, after_declare,
  after_confirm, after_publish, with_channel, attempts,
}
use otus_app.Broker.Rabbit.Acks.{Finished, consume_queue-Finished}
use otus_app.Broker.Rabbit.Publish.{Published, publish_payload-Published}

-- A node that refuses the first publication; the state counts the calls that reach it.
abbrev amqp : Amqp ℕ
amqp = record {
  dial = λ url w. (connected, w);
  make_channel = λ w. (none, w);
  declare = λ queue w. (none, w);
  confirm_mode = λ w. (none, w);
  publish = λ queue payload w. (if ltb 0 w then none else some 4, w + 1);
  wait_confirm = λ w. (acked, w);
  is_closed = λ w. false;
}

abbrev fresh : Conn ℕ
fresh = record { world = 0; current = none; open_sockets = []; next = 0; sent = [] }

abbrev urls : List Text
urls = codes "amqp://a" ∷ []

-- The second attempt goes over a new connection, the first one's socket is closed.
second_attempt : publish_payload amqp urls (codes "q") (some (codes "x")) fresh ≡ (
  none,
  record {
    world = 2;
    current = some 1;
    open_sockets = 1 ∷ [];
    next = 2;
    sent = codes "x" ∷ codes "x" ∷ [];
  },
)
unfolding publish_payload attempts with_channel after_publish channel is_alive try_urls open_channel
    after_dial after_channel after_declare after_confirm close_locked close_socket
second_attempt = refl

publish_payload-Published_example :
    (let o = publish_payload amqp urls (codes "q") (some (codes "x")) fresh in
      Published amqp urls (codes "q") (codes "x") 2 fresh o.0 o.1)
publish_payload-Published_example =
    publish_payload-Published amqp urls (codes "q") (codes "x") fresh (inl (refl, refl))

abbrev decode : Text → Option MessageCreated
decode raw = some (record { id = 1; text = raw; checksum = []; created_at = 0; producer = [] })

-- A handler that accepts two events.
abbrev handle : MessageCreated → ℕ → Option ℕ × ℕ
handle ev n = (if ltb n 2 then none else some 5, n + 1)

abbrev idle : Consumer ℕ
idle = record {
  world = 0;
  handled = [];
  acked = [];
  returned = [];
  ok_count = 0;
  error_count = 0;
  malformed_count = 0;
}

abbrev delivery : Text → Option ℕ → Delivery
delivery body ack = record { body = body; ack = ack }

abbrev session : List Delivery → Session
session ds = record { alive = true; qos = none; start = none; deliveries = ds; alive_after = true }

abbrev sessions : List Session
sessions =
    session (delivery (codes "a") none ∷ [])
    ∷ session (delivery (codes "b") (some 3) ∷ delivery (codes "c") none ∷ [])
    ∷ []

consume_queue-Finished_example :
    Finished (consume_queue decode handle amqp urls (codes "q") sessions fresh idle)
consume_queue-Finished_example =
    consume_queue-Finished decode handle amqp urls (codes "q") sessions fresh idle
      (inl (refl, refl)) refl

acked_by_nats :
    (let s =
        consume_messages decode handle (message (delivery (codes "a") none) ∷ failed ∷ []) idle in
      Acked (some s.0) s.1)
acked_by_nats =
    consume_messages-Acked decode handle (message (delivery (codes "a") none) ∷ failed ∷ []) idle
      refl

-- A cluster of Kafka of which the first broker cannot be reached; the state counts the calls.
abbrev cluster : Topic.Client ℕ
cluster = record {
  dial = λ addr w. (if ltb 0 w then none else some 3, w + 1);
  controller = λ w. (at_address (codes "b") 9092, w + 1);
  create_topics = λ config w. (none, w + 1);
  write_messages = λ key v w. (none, w + 1);
}

ensure_topic-Tried_example :
    (let r =
        ensure_topic cluster
          (topic_config (codes "t") 6 3)
          (codes "a" ∷ codes "b" ∷ [])
          none
          (record { world = 0; connections = 2 }) in
      (r.1.connections ≡ 2)
      × (r.0 ≡ none → WasCreated cluster (topic_config (codes "t") 6 3) r.1.world))
ensure_topic-Tried_example =
    ensure_topic-Tried cluster (topic_config (codes "t") 6 3) (codes "a") (codes "b" ∷ [])
      (record { world = 0; connections = 2 })
