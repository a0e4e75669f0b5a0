-- ===== src/Broker/Deliveries/Acks.antt =====
-- One delivery is acknowledged only after the handler accepted it.
use otus_app.Base.{ℕ, ◌≡◌, refl, Bool, ◌∷◌, Option, none, some, ap}
use otus_app.Text.{Text}
use otus_app.Messaging.{MessageCreated}
use otus_app.Broker.Deliveries.{
  Delivery, Stop, cancelled, malformed, handle_failed, ack_failed, not_started, Consumer,
  acknowledge, after_handler, handle_decoded, deliver,
}

module _ {W : Type 0} where
  -- All handled deliveries are acknowledged, in their order.
  abbrev pub IsEven : Consumer W → Type 0
  IsEven c = c.handled ≡ c.acked

  -- When a loop goes on it is even; at its end it is even, or the acknowledgement of the last handled
  -- delivery failed.
  abbrev pub Acked : Option Stop → Consumer W → Type 0
  Acked none c = IsEven c
  Acked (some cancelled) c = IsEven c
  Acked (some malformed) c = IsEven c
  Acked (some (handle_failed e)) c = IsEven c
  Acked (some (not_started e)) c = IsEven c
  Acked (some (ack_failed e)) c = (body : Text) × (c.handled ≡ body ∷ c.acked)

  after_handler-Acked :
      (naks : Bool) (d : Delivery) (r : Option ℕ × W) (o : Option ℕ) (c : Consumer W)
      → d.ack ≡ o
      → IsEven c
      → (let s = after_handler naks d r c in Acked s.0 s.1)
  unfolding after_handler acknowledge
  after_handler-Acked naks d (some e, w) o c a h = h
  after_handler-Acked naks d (none, w) none c a h = rw a (ap (λ l. d.body ∷ l) h)
  after_handler-Acked naks d (none, w) (some e) c a h = rw a (d.body, ap (λ l. d.body ∷ l) h)

  handle_decoded-Acked :
      (naks : Bool) (handle : MessageCreated → W → Option ℕ × W) (d : Delivery)
      (o : Option MessageCreated) (c : Consumer W)
      → IsEven c
      → (let s = handle_decoded naks handle d o c in Acked s.0 s.1)
  unfolding handle_decoded
  handle_decoded-Acked naks handle d none c h = h
  handle_decoded-Acked naks handle d (some ev) c h =
      after_handler-Acked naks d (handle ev c.world) d.ack c refl h

  pub deliver-Acked :
      (naks : Bool) (decode : Text → Option MessageCreated)
      (handle : MessageCreated → W → Option ℕ × W) (d : Delivery) (c : Consumer W)
      → IsEven c
      → (let s = deliver naks decode handle d c in Acked s.0 s.1)
  unfolding deliver
  deliver-Acked naks decode handle d c h = handle_decoded-Acked naks handle d (decode d.body) c h
