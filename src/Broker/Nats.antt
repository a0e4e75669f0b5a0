-- ===== src/Broker/Nats.antt =====
-- internal/broker/nats.go: Publish and the loop of Consume. The client of NATS is a parameter.
pub mod Acks
use otus_app.Base.{ℕ, true, List, [], ◌∷◌, Option, none, some}
use otus_app.Text.{Text}
use otus_app.Text.Decimal.{format_nat}
use otus_app.Messaging.{MessageCreated}
use otus_app.Broker.Deliveries.{Delivery, Stop, cancelled, not_started, Consumer, deliver}

-- What iter.Next gives: a message, an error while the context is alive, or an error when the iterator is
-- closed or the context is done.
pub data Next : Type 0 where
  message : Delivery → Next
  failed : Next
  closed : Next

module _ {W : Type 0} (decode : Text → Option MessageCreated)
    (handle : MessageCreated → W → Option ℕ × W) where
  abbrev pub or_continue :
      Option Stop × Consumer W → (Consumer W → Stop × Consumer W) → Stop × Consumer W
  or_continue (some s, c) continue = (s, c)
  or_continue (none, c) continue = continue c

  -- The loop of Consume; at the end of the input the context is done.
  unfoldable pub consume_messages : List Next → Consumer W → Stop × Consumer W
  consume_messages [] c = (cancelled, c)
  consume_messages (closed ∷ ns) c = (cancelled, c)
  consume_messages (failed ∷ ns) c = consume_messages ns c
  consume_messages (message d ∷ ns) c =
      or_continue (deliver true decode handle d c) (λ c'. consume_messages ns c')

  -- Consume: consumer.Messages may fail.
  unfoldable pub consume_stream : Option ℕ → List Next → Consumer W → Stop × Consumer W
  consume_stream (some e) ns c = (not_started e, c)
  consume_stream none ns c = consume_messages ns c

module _ {W : Type 0} (js_publish : Text → Text → W → Option ℕ × W) where
  -- Publish; the Option is the encoded event, the first text of js.Publish its Msg-Id.
  unfoldable pub publish_event : MessageCreated → Option Text → W → Option (Option ℕ) × W
  publish_event ev none w = (some none, w)
  publish_event ev (some payload) w = answered (js_publish (format_nat ev.id) payload w)
    where
      answered : {W : Type 0} → Option ℕ × W → Option (Option ℕ) × W
      answered (none, w) = (none, w)
      answered (some e, w) = (some (some e), w)
