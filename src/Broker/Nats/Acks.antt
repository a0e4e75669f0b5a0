-- ===== src/Broker/Nats/Acks.antt =====
-- What the reader of NATS acknowledged, the handler accepted.
use otus_app.Base.{ℕ, true, List, [], ◌∷◌, Option, none, some}
use otus_app.Text.{Text}
use otus_app.Messaging.{MessageCreated}
use otus_app.Broker.Deliveries.{Stop, Consumer, deliver}
use otus_app.Broker.Deliveries.Acks.{IsEven, Acked, deliver-Acked}
use otus_app.Broker.Nats.{Next, message, failed, closed, or_continue, consume_messages}

module _ {W : Type 0} (decode : Text → Option MessageCreated)
    (handle : MessageCreated → W → Option ℕ × W) where
  goes_on :
      (ns : List Next) (o : Option Stop × Consumer W)
      → Acked o.0 o.1
      → ((c : Consumer W)
          → IsEven c
          → (let s = consume_messages decode handle ns c in Acked (some s.0) s.1))
      → (let s = or_continue decode handle o (λ c'. consume_messages decode handle ns c') in
          Acked (some s.0) s.1)
  goes_on ns (some s, c) h g = h
  goes_on ns (none, c) h g = g c h

  -- The loop of the reader of NATS acknowledged exactly the messages that the handler accepted,
  -- in their order, but for the last one when its acknowledgement failed.
  pub consume_messages-Acked :
      (ns : List Next) (c : Consumer W)
      → IsEven c
      → (let s = consume_messages decode handle ns c in Acked (some s.0) s.1)
  unfolding consume_messages
  consume_messages-Acked [] c h = h
  consume_messages-Acked (closed ∷ ns) c h = h
  consume_messages-Acked (failed ∷ ns) c h = consume_messages-Acked ns c h
  consume_messages-Acked (message d ∷ ns) c h =
      goes_on ns (deliver true decode handle d c) (deliver-Acked true decode handle d c h)
        (λ c' h'. consume_messages-Acked ns c' h')
