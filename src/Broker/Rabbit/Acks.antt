-- ===== src/Broker/Rabbit/Acks.antt =====
-- What the reader of RabbitMQ acknowledged, the handler accepted, over all its connections; and it leaves at
-- most its last connection open.
use otus_app.Base.{ℕ, Bool, true, false, List, [], ◌∷◌, Option, none, some, inl, inr, if◌then◌else◌}
use otus_app.Text.{Text}
use otus_app.Messaging.{MessageCreated}
use otus_app.Broker.Deliveries.{Delivery, Stop, Consumer, deliver}
use otus_app.Broker.Deliveries.Acks.{IsEven, Acked, deliver-Acked}
use otus_app.Broker.Rabbit.{
  Amqp, Conn, Failure, Session, close_locked, channel, or_deliver, deliver_all, reset_if,
  after_deliveries, session_started, with_session, consume_queue,
}
use otus_app.Broker.Rabbit.Sockets.{IsTidy, Opening, close_locked-IsClosed, channel-Opening}

module _ {H : Type 0} (decode : Text → Option MessageCreated)
    (handle : MessageCreated → H → Option ℕ × H) where
  next_delivery :
      (ds : List Delivery) (o : Option Stop × Consumer H)
      → Acked o.0 o.1
      → ((h : Consumer H) → IsEven h → (let s = deliver_all decode handle ds h in Acked s.0 s.1))
      → (let s = or_deliver decode handle o (λ h'. deliver_all decode handle ds h') in
          Acked s.0 s.1)
  next_delivery ds (some s, h) a g = a
  next_delivery ds (none, h) a g = g h a

  deliver_all-Acked :
      (ds : List Delivery) (h : Consumer H)
      → IsEven h
      → (let s = deliver_all decode handle ds h in Acked s.0 s.1)
  unfolding deliver_all
  deliver_all-Acked [] h e = e
  deliver_all-Acked (d ∷ ds) h e =
      next_delivery ds (deliver false decode handle d h) (deliver-Acked false decode handle d h e)
        (λ h' e'. deliver_all-Acked ds h' e')

module _ {W : Type 0} where
  reset_if-IsTidy : (b : Bool) (c : Conn W) → IsTidy c → IsTidy (reset_if b c)
  reset_if-IsTidy true c t = inl (close_locked-IsClosed c t)
  reset_if-IsTidy false c t = t

module _ {W H : Type 0} where
  -- At the end of Consume.
  abbrev pub Finished : Stop × (Conn W × Consumer H) → Type 0
  Finished r = Acked (some r.0) r.1.1 × IsTidy r.1.0

  -- The rest of the loop.
  abbrev GoesOn : (Conn W → Consumer H → Stop × (Conn W × Consumer H)) → Type 0
  GoesOn continue = (c : Conn W) (h : Consumer H) → IsTidy c → IsEven h → Finished (continue c h)

  after_deliveries-Finished :
      (alive : Bool) (continue : Conn W → Consumer H → Stop × (Conn W × Consumer H)) (c : Conn W)
      (o : Option Stop × Consumer H)
      → GoesOn continue
      → IsTidy c
      → Acked o.0 o.1
      → Finished (after_deliveries alive continue c o)
  after_deliveries-Finished alive continue c (some s, h) g t a = (a, t)
  after_deliveries-Finished alive continue c (none, h) g t a =
      g (reset_if alive c) h (reset_if-IsTidy alive c t) a

module _ {W H : Type 0} (decode : Text → Option MessageCreated)
    (handle : MessageCreated → H → Option ℕ × H) where
  session_started-Finished :
      (s : Session) (continue : Conn W → Consumer H → Stop × (Conn W × Consumer H))
      (qos start : Option ℕ) (c : Conn W) (h : Consumer H)
      → GoesOn continue
      → IsTidy c
      → IsEven h
      → Finished (session_started decode handle s continue qos start c h)
  unfolding session_started
  session_started-Finished s continue (some e) start c h g t a =
      g (close_locked c) h (inl (close_locked-IsClosed c t)) a
  session_started-Finished s continue none (some e) c h g t a =
      g (close_locked c) h (inl (close_locked-IsClosed c t)) a
  session_started-Finished s continue none none c h g t a =
      after_deliveries-Finished s.alive_after continue c (deliver_all decode handle s.deliveries h)
        g t (deliver_all-Acked decode handle s.deliveries h a)

  with_session-Finished :
      (s : Session) (continue : Conn W → Consumer H → Stop × (Conn W × Consumer H))
      (o : Option Failure × Conn W) (h : Consumer H)
      → GoesOn continue
      → Opening o.0 o.1
      → IsEven h
      → Finished (with_session decode handle s continue o h)
  unfolding with_session
  with_session-Finished s continue (some e, c) h g t a = g c h (inl t) a
  with_session-Finished s continue (none, c) h g t a =
      session_started-Finished s continue s.qos s.start c h g (inr t) a

  module _ (amqp : Amqp W) (urls : List Text) (queue : Text) where
    -- Over all connections that the reader of RabbitMQ makes, and whatever fails: it acknowledged
    -- exactly the deliveries that the handler accepted, in their order, but for the last one when
    -- its acknowledgement failed; and the only open socket is that of its connection.
    pub consume_queue-Finished :
        (ss : List Session) (c : Conn W) (h : Consumer H)
        → IsTidy c
        → IsEven h
        → Finished (consume_queue decode handle amqp urls queue ss c h)
    unfolding consume_queue
    consume_queue-Finished [] c h t a = (a, t)
    consume_queue-Finished (s ∷ ss) c h t a =
        let rest =
          with_session-Finished s (λ c' h'. consume_queue decode handle amqp urls queue ss c' h')
            (channel amqp queue false urls c) h
            (λ c' h' t' a'. consume_queue-Finished ss c' h' t' a')
            (channel-Opening amqp queue false urls c t) a in
        continues s.alive _ _ rest (a, t)
      where
        continues :
            (b : Bool) (x y : Stop × (Conn W × Consumer H))
            → Finished x
            → Finished y
            → Finished (if b then x else y)
        continues true x y p q = p
        continues false x y p q = q
