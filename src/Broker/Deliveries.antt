-- ===== src/Broker/Deliveries.antt =====
-- What the loops of Consume in internal/broker/rabbit.go and nats.go do with one delivery: decode, handle,
-- count, acknowledge.
pub mod Acks
use otus_app.Base.{ℕ, ◌+◌, List, [], ◌∷◌, Option, none, some, Bool, true, false, if◌then◌else◌}
use otus_app.Text.{Text}
use otus_app.Messaging.{MessageCreated}

-- A delivery, with what its acknowledgement would answer.
pub record Delivery : Type 0 where
  pub body : Text
  pub ack : Option ℕ

-- What Consume returns.
pub data Stop : Type 0 where
  cancelled malformed : Stop
  handle_failed ack_failed not_started : ℕ → Stop

-- The handler's world; the bodies of the deliveries that it accepted, of those that were acknowledged and of
-- those that were given back for a later delivery, latest first; the counters.
pub record Consumer (W : Type 0) : Type 0 where
  pub world : W
  pub handled : List Text
  pub acked : List Text
  pub returned : List Text
  pub ok_count : ℕ
  pub error_count : ℕ
  pub malformed_count : ℕ

module _ {W : Type 0} where
  -- Ack: the metric is counted before it.
  unfoldable pub acknowledge : Delivery → Option ℕ → Consumer W → Option Stop × Consumer W
  acknowledge d (some e) c = (some (ack_failed e), c)
  acknowledge d none c = (none, record c { acked = d.body ∷ c.acked })

  -- A refused delivery is given back at once by NakWithDelay of NATS; RabbitMQ gives it back when the
  -- connection is closed.
  unfoldable pub after_handler :
      Bool → Delivery → Option ℕ × W → Consumer W → Option Stop × Consumer W
  after_handler naks d (some e, w) c = (
    some (handle_failed e),
    record c {
      world = w;
      error_count = c.error_count + 1;
      returned = if naks then d.body ∷ c.returned else c.returned;
    },
  )
  after_handler naks d (none, w) c =
      acknowledge d d.ack
        (record c { world = w; handled = d.body ∷ c.handled; ok_count = c.ok_count + 1 })

  unfoldable pub handle_decoded :
      Bool
      → (MessageCreated → W → Option ℕ × W)
      → Delivery
      → Option MessageCreated
      → Consumer W
      → Option Stop × Consumer W
  handle_decoded naks handle d none c =
      (some malformed, record c { malformed_count = c.malformed_count + 1 })
  handle_decoded naks handle d (some ev) c = after_handler naks d (handle ev c.world) c

  module _ (naks : Bool) (decode : Text → Option MessageCreated)
      (handle : MessageCreated → W → Option ℕ × W) where
    -- One delivery; `none` goes on with the loop.
    unfoldable pub deliver : Delivery → Consumer W → Option Stop × Consumer W
    deliver d c = handle_decoded naks handle d (decode d.body) c
