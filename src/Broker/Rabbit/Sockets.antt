-- ===== src/Broker/Rabbit/Sockets.antt =====
-- The connection keeps at most one socket open, its own.
use otus_app.Base.{
  ℕ, ◌≡◌, refl, Bool, true, List, [], ◌∷◌, Option, none, some, arith, Bool-cases, inl, inr, ◌⊎◌, ap,
}
use otus_app.Text.{Text}
use otus_app.Broker.Rabbit.{
  Dial, no_socket, handshake_failed, connected, Amqp, Failure, no_urls, broker, Conn, close_socket,
  close_locked, open_one, fail, after_confirm, after_declare, after_channel, after_dial,
  open_channel, or_next, try_urls, is_alive, channel,
}

module _ {W : Type 0} where
  abbrev pub IsClosed : Conn W → Type 0
  IsClosed c = (c.current ≡ none) × (c.open_sockets ≡ [])

  abbrev pub IsOpened : Conn W → Type 0
  IsOpened c = (k : ℕ) × (c.current ≡ some k) × (c.open_sockets ≡ k ∷ [])

  -- The only open socket is that of the connection.
  abbrev pub IsTidy : Conn W → Type 0
  IsTidy c = IsClosed c ⊎ IsOpened c

  -- After an attempt to open.
  abbrev pub Opening : {E : Type 0} → Option E → Conn W → Type 0
  Opening none c = IsOpened c
  Opening (some e) c = IsClosed c

close_socket_one : (k : ℕ) → close_socket k (k ∷ []) ≡ []
unfolding close_socket
close_socket_one k = ground arith

module _ {W : Type 0} where
  pub close_locked-IsClosed : (c : Conn W) → IsTidy c → IsClosed (close_locked c)
  unfolding close_locked
  close_locked-IsClosed c (inl (e, h)) = (refl, rw e h)
  close_locked-IsClosed c (inr (k, e, h)) = (refl, rw (e, h) (close_socket_one k))

  module _ (amqp : Amqp W) (queue : Text) (confirm : Bool) where
    fail-IsClosed :
        (k e : ℕ) (c : Conn W)
        → c.current ≡ none
        → c.open_sockets ≡ k ∷ []
        → Opening (fail k e c).0 (fail k e c).1
    unfolding fail
    fail-IsClosed k e c h o = (h, rw o (close_socket_one k))

    after_confirm-Opening :
        (k : ℕ) (r : Option ℕ × W) (c : Conn W)
        → c.current ≡ none
        → c.open_sockets ≡ k ∷ []
        → (let o = after_confirm amqp queue confirm k r c in Opening o.0 o.1)
    unfolding after_confirm
    after_confirm-Opening k (some e, w) c h o = fail-IsClosed k e (record c { world = w }) h o
    after_confirm-Opening k (none, w) c h o = (k, refl, o)

    after_declare-Opening :
        (k : ℕ) (r : Option ℕ × W) (c : Conn W)
        → c.current ≡ none
        → c.open_sockets ≡ k ∷ []
        → (let o = after_declare amqp queue confirm k r c in Opening o.0 o.1)
    unfolding after_declare
    after_declare-Opening k (some e, w) c h o = fail-IsClosed k e (record c { world = w }) h o
    after_declare-Opening k (none, w) c h o = after_confirm-Opening k _ c h o

    after_channel-Opening :
        (k : ℕ) (r : Option ℕ × W) (c : Conn W)
        → c.current ≡ none
        → c.open_sockets ≡ k ∷ []
        → (let o = after_channel amqp queue confirm k r c in Opening o.0 o.1)
    unfolding after_channel
    after_channel-Opening k (some e, w) c h o = fail-IsClosed k e (record c { world = w }) h o
    after_channel-Opening k (none, w) c h o = after_declare-Opening k (amqp.declare queue w) c h o

    after_dial-Opening :
        (r : Dial × W) (c : Conn W)
        → IsClosed c
        → (let o = after_dial amqp queue confirm r c in Opening o.0 o.1)
    unfolding after_dial
    after_dial-Opening (no_socket e, w) c h = h
    after_dial-Opening (handshake_failed e, w) c (h, o) =
        fail-IsClosed c.next e (open_one (record c { world = w })) h (ap (λ l. c.next ∷ l) o)
    after_dial-Opening (connected, w) c (h, o) =
        after_channel-Opening c.next (amqp.make_channel w) (open_one c) h (ap (λ l. c.next ∷ l) o)

    next_url :
        (r : Option ℕ × Conn W) (next : Failure → Conn W → Option Failure × Conn W)
        → Opening r.0 r.1
        → ((e : Failure) (c : Conn W) → IsClosed c → Opening (next e c).0 (next e c).1)
        → (let o = or_next amqp queue confirm r next in Opening o.0 o.1)
    next_url (none, c) next h g = h
    next_url (some e, c) next h g = g (broker e) c h

    try_urls-Opening :
        (urls : List Text) (last : Failure) (c : Conn W)
        → IsClosed c
        → (let o = try_urls amqp queue confirm urls last c in Opening o.0 o.1)
    unfolding try_urls open_channel
    try_urls-Opening [] last c h = h
    try_urls-Opening (url ∷ urls) last c h =
        next_url (after_dial amqp queue confirm (amqp.dial url c.world) c) _
          (after_dial-Opening (amqp.dial url c.world) c h) (λ e c' k. try_urls-Opening urls e c' k)

    -- A live connection has a socket.
    is_alive-IsOpened :
        (c : Conn W) → IsTidy c → is_alive amqp queue confirm c c.current ≡ true → IsOpened c
    unfolding is_alive
    is_alive-IsOpened c (inr k) h = k
    is_alive-IsOpened c (inl (e, o)) h = absurd (closed_alive c.current e h)
      where
        closed_alive : (o : Option ℕ) → o ≡ none → is_alive amqp queue confirm c o ≡ true → ⊥
        closed_alive none e h = ground arith
        closed_alive (some k) e h = ground arith

    pub channel-Opening :
        (urls : List Text) (c : Conn W)
        → IsTidy c
        → (let o = channel amqp queue confirm urls c in Opening o.0 o.1)
    unfolding channel
    channel-Opening urls c h = elim (Bool-cases (is_alive amqp queue confirm c c.current)) [
      | inl b ↦ rw b (is_alive-IsOpened c h b)
      | inr b ↦ rw b (try_urls-Opening urls no_urls (close_locked c) (close_locked-IsClosed c h))
    ]
