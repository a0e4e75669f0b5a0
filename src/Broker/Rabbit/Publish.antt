-- ===== src/Broker/Rabbit/Publish.antt =====
-- Publish sends at most twice, reports success only for a confirmed payload, and leaves no socket behind.
use otus_app.Base.{
  ℕ, zero, suc, ◌≤◌, ◌≡◌, refl, Bool, true, List, [], ◌∷◌, ◌++◌, Option, none, some, arith,
  Bool-cases, inl, inr, replicate, ap, ◌∙◌,
}
use otus_app.Text.{Text}
use otus_app.Broker.Rabbit.{
  Dial, no_socket, handshake_failed, connected, Confirm, wait_failed, acked, nacked, Amqp, Failure,
  no_urls, broker, Conn, close_locked, open_one, fail, after_confirm, after_declare, after_channel,
  after_dial, open_channel, or_next, try_urls, is_alive, channel, confirmed, after_publish,
  with_channel, attempts, publish_payload,
}
use otus_app.Broker.Rabbit.Sockets.{IsTidy, Opening, close_locked-IsClosed, channel-Opening}

module _ {W : Type 0} where
  -- Opening sends nothing.
  module _ (amqp : Amqp W) (queue : Text) (confirm : Bool) where
    after_confirm-sent :
        (k : ℕ) (r : Option ℕ × W) (c : Conn W)
        → (after_confirm amqp queue confirm k r c).1.sent ≡ c.sent
    unfolding after_confirm fail
    after_confirm-sent k (some e, w) c = refl
    after_confirm-sent k (none, w) c = refl

    after_declare-sent :
        (k : ℕ) (r : Option ℕ × W) (c : Conn W)
        → (after_declare amqp queue confirm k r c).1.sent ≡ c.sent
    unfolding after_declare fail
    after_declare-sent k (some e, w) c = refl
    after_declare-sent k (none, w) c = after_confirm-sent k _ c

    after_channel-sent :
        (k : ℕ) (r : Option ℕ × W) (c : Conn W)
        → (after_channel amqp queue confirm k r c).1.sent ≡ c.sent
    unfolding after_channel fail
    after_channel-sent k (some e, w) c = refl
    after_channel-sent k (none, w) c = after_declare-sent k (amqp.declare queue w) c

    after_dial-sent :
        (r : Dial × W) (c : Conn W) → (after_dial amqp queue confirm r c).1.sent ≡ c.sent
    unfolding after_dial fail
    after_dial-sent (no_socket e, w) c = refl
    after_dial-sent (handshake_failed e, w) c = refl
    after_dial-sent (connected, w) c = after_channel-sent c.next (amqp.make_channel w) (open_one c)

    next_url-sent :
        (r : Option ℕ × Conn W) (next : Failure → Conn W → Option Failure × Conn W)
        → ((e : Failure) → (next e r.1).1.sent ≡ r.1.sent)
        → (or_next amqp queue confirm r next).1.sent ≡ r.1.sent
    next_url-sent (none, c) next g = refl
    next_url-sent (some e, c) next g = g (broker e)

    try_urls-sent :
        (urls : List Text) (last : Failure) (c : Conn W)
        → (try_urls amqp queue confirm urls last c).1.sent ≡ c.sent
    unfolding try_urls open_channel
    try_urls-sent [] last c = refl
    try_urls-sent (url ∷ urls) last c =
        let r = after_dial amqp queue confirm (amqp.dial url c.world) c in
        next_url-sent r _ (λ e. try_urls-sent urls e r.1)
        ∙ after_dial-sent (amqp.dial url c.world) c

    channel-sent :
        (urls : List Text) (c : Conn W) → (channel amqp queue confirm urls c).1.sent ≡ c.sent
    unfolding channel close_locked
    channel-sent urls c = elim (Bool-cases (is_alive amqp queue confirm c c.current)) [
      | inl b ↦ rw b refl
      | inr b ↦ rw b (try_urls-sent urls no_urls (close_locked c))
    ]

  module _ (amqp : Amqp W) (urls : List Text) (queue payload : Text) where
    -- The last confirmation that the client gave was a success.
    abbrev pub WasConfirmed : Conn W → Type 0
    WasConfirmed c = (w : W) × (amqp.wait_confirm w ≡ (acked, c.world))

    -- From one connection to another: at most this many times the payload was sent, and success means that
    -- it was sent and confirmed.
    abbrev pub Published : ℕ → Conn W → Option Failure → Conn W → Type 0
    Published n c o c' =
        (k : ℕ) × (k ≤ n)
        × (c'.sent ≡ replicate k payload ++ c.sent)
        × IsTidy c'
        × (o ≡ none → (1 ≤ k) × WasConfirmed c')

    confirmed-Published :
        (n : ℕ) (w : W) (r : Confirm × W) (c c₁ : Conn W)
        → amqp.wait_confirm w ≡ r
        → IsTidy c₁
        → c₁.sent ≡ payload ∷ c.sent
        → (let o = confirmed amqp urls queue r c₁ in Published (suc n) c o.0 o.1)
    confirmed-Published n w (wait_failed e, w') c c₁ h t s =
        (1, omega arith, s, t, λ k. absurd (ground arith))
    confirmed-Published n w (nacked, w') c c₁ h t s =
        (1, omega arith, s, t, λ k. absurd (ground arith))
    confirmed-Published n w (acked, w') c c₁ h t s =
        (1, omega arith, s, t, λ k. (omega arith, (w, h)))

    -- One more attempt in front: it sent the payload, or nothing.
    again_Published :
        (n k : ℕ) (c c₁ c₂ : Conn W) (o : Option Failure)
        → k ≤ 1
        → c₁.sent ≡ replicate k payload ++ c.sent
        → Published n c₁ o c₂
        → Published (suc n) c o c₂
    again_Published n zero c c₁ c₂ o h e (j, l, s, t, f) =
        (j, omega arith, s ∙ ap (λ x. replicate j payload ++ x) e, t, f)
    again_Published n (suc zero) c c₁ c₂ o h e (j, l, s, t, f) = (
      suc j,
      omega arith,
      s ∙ ap (λ x. replicate j payload ++ x) e ∙ replicate-shift j c.sent,
      t,
      λ k. (omega arith, (f k).1),
    )
      where
        replicate-shift :
            (j : ℕ) (l : List Text)
            → replicate j payload ++ (payload ∷ l) ≡ payload ∷ (replicate j payload ++ l)
        replicate-shift zero l = refl
        replicate-shift (suc j) l = ap (λ x. payload ∷ x) (replicate-shift j l)
    again_Published n (suc (suc k)) c c₁ c₂ o h e p = absurd (omega arith)

    after_publish-Published :
        (n : ℕ) (again : Failure → Conn W → Option Failure × Conn W) (r : Option ℕ × W)
        (c c₁ : Conn W)
        → IsTidy c₁
        → c₁.sent ≡ c.sent
        → ((e : Failure) (c' : Conn W) → IsTidy c' → Published n c' (again e c').0 (again e c').1)
        → (let o = after_publish amqp urls queue payload again r c₁ in Published (suc n) c o.0 o.1)
    unfolding after_publish
    after_publish-Published n again (some e, w) c c₁ t s g =
        let c₂ = record c₁ { world = w; sent = payload ∷ c₁.sent } in
        let o = again (broker e) (close_locked c₂) in
        again_Published n 1 c (close_locked c₂) o.1 o.0 (omega arith)
          (closed_sent c₂ ∙ ap (λ l. payload ∷ l) s)
          (g (broker e) (close_locked c₂) (inl (close_locked-IsClosed c₂ t)))
      where
        closed_sent : (c : Conn W) → (close_locked c).sent ≡ c.sent
        closed_sent c = unfold close_locked in refl
    after_publish-Published n again (none, w) c c₁ t s g =
        confirmed-Published n w (amqp.wait_confirm w) c (record c₁ { sent = payload ∷ c₁.sent })
          refl t (ap (λ l. payload ∷ l) s)

    with_channel-Published :
        (n : ℕ) (again : Failure → Conn W → Option Failure × Conn W) (r : Option Failure × Conn W)
        (c : Conn W)
        → Opening r.0 r.1
        → r.1.sent ≡ c.sent
        → ((e : Failure) (c' : Conn W) → IsTidy c' → Published n c' (again e c').0 (again e c').1)
        → (let o = with_channel amqp urls queue payload again r in Published (suc n) c o.0 o.1)
    unfolding with_channel
    with_channel-Published n again (some e, c₁) c h s g =
        again_Published n 0 c c₁ (again e c₁).1 (again e c₁).0 (omega arith) s (g e c₁ (inl h))
    with_channel-Published n again (none, c₁) c h s g =
        after_publish-Published n again (amqp.publish queue payload c₁.world) c c₁ (inr h) s g

    attempts-Published :
        (n : ℕ) (last : Failure) (c : Conn W)
        → IsTidy c
        → (let o = attempts amqp urls queue payload n last c in Published n c o.0 o.1)
    unfolding attempts
    attempts-Published zero last c t = (0, omega arith, refl, t, λ k. absurd (ground arith))
    attempts-Published (suc n) last c t =
        with_channel-Published n _ (channel amqp queue true urls c) c
          (channel-Opening amqp queue true urls c t) (channel-sent amqp queue true urls c)
          (λ e c' t'. attempts-Published n e c' t')

    -- Whatever the client answers, Publish over RabbitMQ sends its payload at most twice, reports
    -- success only if it sent it and the last confirmation that it waited for was positive, and
    -- if before it the only open socket was that of the connection, then this also holds after
    -- it.
    pub publish_payload-Published :
        (c : Conn W)
        → IsTidy c
        → (let o = publish_payload amqp urls queue (some payload) c in Published 2 c o.0 o.1)
    unfolding publish_payload
    publish_payload-Published c t = attempts-Published 2 no_urls c t
