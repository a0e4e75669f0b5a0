-- ===== src/Broker/Rabbit.antt =====
-- internal/broker/rabbit.go: the connection, Publish and Consume. The AMQP client is a parameter; sockets are
-- numbers, and the open ones are part of the state.
pub mod Sockets
pub mod Publish
pub mod Acks
use otus_app.Base.{
  ℕ, zero, suc, ◌+◌, Bool, true, false, ◌==◌, List, [], ◌∷◌, Option, none, some, if◌then◌else◌,
}
use otus_app.Text.{Text}
use otus_app.Messaging.{MessageCreated}
use otus_app.Broker.Deliveries.{Delivery, Stop, cancelled, Consumer, deliver}

-- What DialConfig gives: an error before or after the socket was opened, or a connection.
pub data Dial : Type 0 where
  no_socket handshake_failed : ℕ → Dial
  connected : Dial

-- What WaitContext gives.
pub data Confirm : Type 0 where
  wait_failed : ℕ → Confirm
  acked nacked : Confirm

-- The methods of the client: DialConfig at a URL, Channel, QueueDeclare, Confirm,
-- PublishWithDeferredConfirm at a queue, WaitContext, and IsClosed of the channel or of the connection.
pub record Amqp (W : Type 0) : Type 0 where
  pub dial : Text → W → Dial × W
  pub make_channel : W → Option ℕ × W
  pub declare : Text → W → Option ℕ × W
  pub confirm_mode : W → Option ℕ × W
  pub publish : Text → Text → W → Option ℕ × W
  pub wait_confirm : W → Confirm × W
  pub is_closed : W → Bool

pub data Failure : Type 0 where
  no_urls encode_failed not_confirmed : Failure
  broker : ℕ → Failure

-- rabbitConn: the socket of its connection, with the world of the client, the open sockets, the number of
-- the next one, and the payloads that were sent, latest first.
pub record Conn (W : Type 0) : Type 0 where
  pub world : W
  pub current : Option ℕ
  pub open_sockets : List ℕ
  pub next : ℕ
  pub sent : List Text

unfoldable pub close_socket : ℕ → List ℕ → List ℕ
close_socket k [] = []
close_socket k (j ∷ js) = let rest = close_socket k js in if j == k then rest else j ∷ rest

abbrev pub close_current : Option ℕ → List ℕ → List ℕ
close_current none open_sockets = open_sockets
close_current (some k) open_sockets = close_socket k open_sockets

module _ {W : Type 0} where
  -- closeLocked
  unfoldable pub close_locked : Conn W → Conn W
  close_locked c = record c {
    current = none;
    open_sockets = close_current c.current c.open_sockets;
  }

  abbrev pub open_one : Conn W → Conn W
  open_one c = record c { open_sockets = c.next ∷ c.open_sockets; next = c.next + 1 }

  -- `fail` of openRabbitChannel, for a socket that was opened.
  unfoldable pub fail : ℕ → ℕ → Conn W → Option ℕ × Conn W
  fail socket e c = (some e, record c { open_sockets = close_socket socket c.open_sockets })

  module _ (amqp : Amqp W) (queue : Text) (confirm : Bool) where
    unfoldable pub after_confirm : ℕ → Option ℕ × W → Conn W → Option ℕ × Conn W
    after_confirm socket (some e, w) c = fail socket e (record c { world = w })
    after_confirm socket (none, w) c = (none, record c { world = w; current = some socket })

    unfoldable pub after_declare : ℕ → Option ℕ × W → Conn W → Option ℕ × Conn W
    after_declare socket (some e, w) c = fail socket e (record c { world = w })
    after_declare socket (none, w) c =
        after_confirm socket (if confirm then amqp.confirm_mode w else (none, w)) c

    unfoldable pub after_channel : ℕ → Option ℕ × W → Conn W → Option ℕ × Conn W
    after_channel socket (some e, w) c = fail socket e (record c { world = w })
    after_channel socket (none, w) c = after_declare socket (amqp.declare queue w) c

    unfoldable pub after_dial : Dial × W → Conn W → Option ℕ × Conn W
    after_dial (no_socket e, w) c = (some e, record c { world = w })
    after_dial (handshake_failed e, w) c = fail c.next e (open_one (record c { world = w }))
    after_dial (connected, w) c = after_channel c.next (amqp.make_channel w) (open_one c)

    -- openRabbitChannel, with the assignment of its result to the fields.
    unfoldable pub open_channel : Text → Conn W → Option ℕ × Conn W
    open_channel url c = after_dial (amqp.dial url c.world) c

    abbrev pub or_next :
        Option ℕ × Conn W → (Failure → Conn W → Option Failure × Conn W) → Option Failure × Conn W
    or_next (none, c) next = (none, c)
    or_next (some e, c) next = next (broker e) c

    -- The loop over the URLs, with lastErr.
    unfoldable pub try_urls : List Text → Failure → Conn W → Option Failure × Conn W
    try_urls [] last c = (some last, c)
    try_urls (url ∷ urls) last c = or_next (open_channel url c) (λ e c'. try_urls urls e c')

    unfoldable pub is_alive : Conn W → Option ℕ → Bool
    is_alive c none = false
    is_alive c (some k) = if amqp.is_closed c.world then false else true

    -- channel
    unfoldable pub channel : List Text → Conn W → Option Failure × Conn W
    channel urls c =
        if is_alive c c.current then (none, c) else try_urls urls no_urls (close_locked c)

  module _ (amqp : Amqp W) (urls : List Text) (queue : Text) where
    abbrev pub confirmed : Confirm × W → Conn W → Option Failure × Conn W
    confirmed (wait_failed e, w) c = (some (broker e), record c { world = w })
    confirmed (nacked, w) c = (some not_confirmed, record c { world = w })
    confirmed (acked, w) c = (none, record c { world = w })

    -- The answer of PublishWithDeferredConfirm; an error closes the connection and goes on with the loop.
    unfoldable pub after_publish :
        Text
        → (Failure → Conn W → Option Failure × Conn W)
        → Option ℕ × W
        → Conn W
        → Option Failure × Conn W
    after_publish payload again (some e, w) c =
        again (broker e) (close_locked (record c { world = w; sent = payload ∷ c.sent }))
    after_publish payload again (none, w) c =
        confirmed (amqp.wait_confirm w) (record c { sent = payload ∷ c.sent })

    unfoldable pub with_channel :
        Text
        → (Failure → Conn W → Option Failure × Conn W)
        → Option Failure × Conn W
        → Option Failure × Conn W
    with_channel payload again (some e, c) = again e c
    with_channel payload again (none, c) =
        after_publish payload again (amqp.publish queue payload c.world) c

    -- The loop of Publish, with lastErr.
    unfoldable pub attempts : Text → ℕ → Failure → Conn W → Option Failure × Conn W
    attempts payload zero last c = (some last, c)
    attempts payload (suc n) last c =
        with_channel payload (λ e c'. attempts payload n e c') (channel amqp queue true urls c)

    -- Publish; the Option is the encoded event.
    unfoldable pub publish_payload : Option Text → Conn W → Option Failure × Conn W
    publish_payload none c = (some encode_failed, c)
    publish_payload (some payload) c = attempts payload 2 no_urls c

-- A round of Consume: whether the context is alive at its start, the answers of Qos and Consume, the
-- deliveries until the channel is closed, and whether the context is alive then.
pub record Session : Type 0 where
  pub alive : Bool
  pub qos : Option ℕ
  pub start : Option ℕ
  pub deliveries : List Delivery
  pub alive_after : Bool

module _ {H : Type 0} (decode : Text → Option MessageCreated)
    (handle : MessageCreated → H → Option ℕ × H) where
  abbrev pub or_deliver :
      Option Stop × Consumer H → (Consumer H → Option Stop × Consumer H) → Option Stop × Consumer H
  or_deliver (some s, h) next = (some s, h)
  or_deliver (none, h) next = next h

  -- The loop over the deliveries.
  unfoldable pub deliver_all : List Delivery → Consumer H → Option Stop × Consumer H
  deliver_all [] h = (none, h)
  deliver_all (d ∷ ds) h = or_deliver (deliver false decode handle d h) (λ h'. deliver_all ds h')

module _ {W : Type 0} where
  abbrev pub reset_if : Bool → Conn W → Conn W
  reset_if true c = close_locked c
  reset_if false c = c

module _ {W H : Type 0} where
  abbrev pub after_deliveries :
      Bool
      → (Conn W → Consumer H → Stop × (Conn W × Consumer H))
      → Conn W
      → Option Stop × Consumer H
      → Stop × (Conn W × Consumer H)
  after_deliveries alive continue c (some s, h) = (s, (c, h))
  after_deliveries alive continue c (none, h) = continue (reset_if alive c) h

module _ {W H : Type 0} (decode : Text → Option MessageCreated)
    (handle : MessageCreated → H → Option ℕ × H) where
  -- Qos and ConsumeWithContext.
  unfoldable pub session_started :
      Session
      → (Conn W → Consumer H → Stop × (Conn W × Consumer H))
      → Option ℕ
      → Option ℕ
      → Conn W
      → Consumer H
      → Stop × (Conn W × Consumer H)
  session_started s continue (some e) start c h = continue (close_locked c) h
  session_started s continue none (some e) c h = continue (close_locked c) h
  session_started s continue none none c h =
      after_deliveries s.alive_after continue c (deliver_all decode handle s.deliveries h)

  unfoldable pub with_session :
      Session
      → (Conn W → Consumer H → Stop × (Conn W × Consumer H))
      → Option Failure × Conn W
      → Consumer H
      → Stop × (Conn W × Consumer H)
  with_session s continue (some e, c) h = continue c h
  with_session s continue (none, c) h = session_started s continue s.qos s.start c h

  module _ (amqp : Amqp W) (urls : List Text) (queue : Text) where
    -- Consume; at the end of the rounds the context is done.
    unfoldable pub consume_queue : List Session → Conn W → Consumer H → Stop × (Conn W × Consumer H)
    consume_queue [] c h = (cancelled, (c, h))
    consume_queue (s ∷ ss) c h =
        let rest =
          with_session s (λ c' h'. consume_queue ss c' h') (channel amqp queue false urls c) h in
        if s.alive then rest else (cancelled, (c, h))
