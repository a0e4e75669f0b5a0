-- ===== src/Broker/Select.antt =====
-- internal/broker/broker.go: NewPublisher and NewConsumer. The constructors of the three brokers are arguments;
-- that of a publisher gives none when the broker is not configured.
use otus_app.Base.{ℕ, ◌||◌, Option, none, some, if◌then◌else◌}
use otus_app.Text.{Text, codes, text_eq}

pub data Made (A : Type 0) : Type 0 where
  made : A → Made A
  not_made : ℕ → Made A
  unknown_broker : Text → Made A

module _ {P W : Type 0} (kafka rabbit nats : W → Made (Option P) × W) (measured : P → P) where
  -- The publisher is wrapped to be measured, if there is one.
  unfoldable pub wrapped : Made (Option P) × W → Made (Option P) × W
  wrapped (made none, w) = (made none, w)
  wrapped (made (some p), w) = (made (some (measured p)), w)
  wrapped (not_made e, w) = (not_made e, w)
  wrapped (unknown_broker name, w) = (unknown_broker name, w)

  unfoldable pub new_publisher : Text → W → Made (Option P) × W
  new_publisher name w =
      if text_eq name (codes "kafka")
      then wrapped (kafka w)
      else if text_eq name (codes "rabbitmq")
      then wrapped (rabbit w)
      else if text_eq name (codes "nats")
      then wrapped (nats w)
      else (unknown_broker name, w)

module _ {C W : Type 0} (kafka rabbit nats : W → Made C × W) where
  -- NewConsumer, which also takes the name rabbit.
  unfoldable pub new_consumer : Text → W → Made C × W
  new_consumer name w =
      if text_eq name (codes "kafka")
      then kafka w
      else if text_eq name (codes "rabbitmq") || text_eq name (codes "rabbit")
      then rabbit w
      else if text_eq name (codes "nats")
      then nats w
      else (unknown_broker name, w)
