-- ===== src/Broker/Kafka/Topic.antt =====
-- internal/broker/kafka.go: ensureTopic and Publish. The client of Kafka is a parameter; its open connections
-- are counted.
use otus_app.Base.{ℕ, ◌+◌, ◌-◌, ◌≡◌, refl, List, [], ◌∷◌, ◌++◌, Option, none, some, arith, ◌∙◌}
use otus_app.Text.{Text, codes}
use otus_app.Text.Decimal.{format_nat}
use otus_app.Messaging.{MessageCreated}

-- The parameters of the topic.
pub record TopicConfig : Type 0 where
  pub topic : Text
  pub partitions : ℕ
  pub replicas : ℕ
  pub min_insync : Text

-- What Controller gives.
pub data Controller : Type 0 where
  at_address : Text → ℕ → Controller
  unknown : ℕ → Controller

-- DialContext at an address, Controller of its connection, CreateTopics, and WriteMessages at a key and a
-- value.
pub record Client (W : Type 0) : Type 0 where
  pub dial : Text → W → Option ℕ × W
  pub controller : W → Controller × W
  pub create_topics : TopicConfig → W → Option ℕ × W
  pub write_messages : Text → Text → W → Option ℕ × W

-- The world of the client and the number of open connections.
pub record Network (W : Type 0) : Type 0 where
  pub world : W
  pub connections : ℕ

unfoldable pub topic_config : Text → ℕ → ℕ → TopicConfig
topic_config topic partitions replicas = record {
  topic = topic;
  partitions = partitions;
  replicas = replicas;
  min_insync = codes "2";
}

module _ {W : Type 0} (client : Client W) (config : TopicConfig) where
  abbrev pub opened_at : W → Network W → Network W
  opened_at w n = record { world = w; connections = n.connections + 1 }

  abbrev pub closed_at : W → Network W → Network W
  closed_at w n = record { world = w; connections = n.connections - 1 }

  abbrev pub created_at : Option ℕ × W → Network W → Option ℕ × Network W
  created_at (e, w) n = (e, closed_at w n)

  abbrev pub with_controller : Option ℕ × W → Network W → Option ℕ × Network W
  with_controller (some e, w) n = (some e, record n { world = w })
  with_controller (none, w) n = created_at (client.create_topics config w) (opened_at w n)

  abbrev pub asked_controller : Controller × W → Network W → Option ℕ × Network W
  asked_controller (unknown e, w) n = (some e, closed_at w n)
  asked_controller (at_address host port, w) n =
      with_controller (client.dial (host ++ codes ":" ++ format_nat port) w) (closed_at w n)

  abbrev pub dialed : Option ℕ × W → Network W → Option ℕ × Network W
  dialed (some e, w) n = (some e, record n { world = w })
  dialed (none, w) n = asked_controller (client.controller w) (opened_at w n)

  -- One address: the controller is asked for, then the topic is created there.
  unfoldable pub try_address : Text → Network W → Option ℕ × Network W
  try_address addr n = dialed (client.dial addr n.world) n

  abbrev pub or_next_address :
      Option ℕ × Network W → (Option ℕ → Network W → Option ℕ × Network W) → Option ℕ × Network W
  or_next_address (none, n) next = (none, n)
  or_next_address (some e, n) next = next (some e) n

  -- ensureTopic, with lastErr; without addresses it returns nil.
  unfoldable pub ensure_topic : List Text → Option ℕ → Network W → Option ℕ × Network W
  ensure_topic [] last n = (last, n)
  ensure_topic (addr ∷ addrs) last n =
      or_next_address (try_address addr n) (λ e n'. ensure_topic addrs e n')

  -- The topic is there: CreateTopics succeeded.
  abbrev pub WasCreated : W → Type 0
  WasCreated w = (u : W) × (client.create_topics config u ≡ (none, w))

  -- An attempt at one address closes what it opens, and succeeds only if the topic was created.
  abbrev Tried : Network W → Option ℕ × Network W → Type 0
  Tried n r = (r.1.connections ≡ n.connections) × (r.0 ≡ none → WasCreated r.1.world)

  created_at-Tried :
      (w : W) (r : Option ℕ × W) (n : Network W)
      → client.create_topics config w ≡ r
      → Tried n (created_at r (opened_at w n))
  created_at-Tried w (none, w') n h = (omega arith, λ e. (w, h))
  created_at-Tried w (some e, w') n h = (omega arith, λ k. absurd (ground arith))

  with_controller-Tried : (r : Option ℕ × W) (n : Network W) → Tried n (with_controller r n)
  with_controller-Tried (some e, w) n = (refl, λ k. absurd (ground arith))
  with_controller-Tried (none, w) n = created_at-Tried w (client.create_topics config w) n refl

  asked_controller-Tried :
      (w : W) (r : Controller × W) (n : Network W) → Tried n (asked_controller r (opened_at w n))
  asked_controller-Tried w (unknown e, w') n = (omega arith, λ k. absurd (ground arith))
  asked_controller-Tried w (at_address host port, w') n =
      let (o, c) =
        with_controller-Tried (client.dial (host ++ codes ":" ++ format_nat port) w')
          (closed_at w' (opened_at w n)) in
      (omega (arith, o), c)

  dialed-Tried : (r : Option ℕ × W) (n : Network W) → Tried n (dialed r n)
  dialed-Tried (some e, w) n = (refl, λ k. absurd (ground arith))
  dialed-Tried (none, w) n = asked_controller-Tried w (client.controller w) n

  next_address :
      (r : Option ℕ × Network W) (n : Network W)
      (next : Option ℕ → Network W → Option ℕ × Network W)
      → Tried n r
      → ((e : ℕ) (n' : Network W) → Tried n' (next (some e) n'))
      → Tried n (or_next_address r next)
  next_address (none, n₁) n next h g = h
  next_address (some e, n₁) n next (o, c) g = let (p, d) = g e n₁ in (p ∙ o, d)

  later_addresses :
      (addrs : List Text) (e : ℕ) (n : Network W) → Tried n (ensure_topic addrs (some e) n)
  unfolding ensure_topic try_address
  later_addresses [] e n = (refl, λ k. absurd (ground arith))
  later_addresses (addr ∷ addrs) e n =
      next_address (dialed (client.dial addr n.world) n) n _
        (dialed-Tried (client.dial addr n.world) n) (λ e' n'. later_addresses addrs e' n')

  -- Whatever fails: ensureTopic closes all connections that it opens, and with at least one
  -- address it returns no error only after CreateTopics succeeded.
  pub ensure_topic-Tried :
      (addr : Text) (addrs : List Text) (n : Network W)
      → (let r = ensure_topic (addr ∷ addrs) none n in
          (r.1.connections ≡ n.connections) × (r.0 ≡ none → WasCreated r.1.world))
  unfolding ensure_topic try_address
  ensure_topic-Tried addr addrs n =
      next_address (dialed (client.dial addr n.world) n) n _
        (dialed-Tried (client.dial addr n.world) n) (λ e n'. later_addresses addrs e n')

module _ {W : Type 0} (client : Client W) where
  -- Publish; the Option is the encoded event.
  unfoldable pub publish_record : MessageCreated → Option Text → W → Option (Option ℕ) × W
  publish_record ev none w = (some none, w)
  publish_record ev (some payload) w = written (client.write_messages (format_nat ev.id) payload w)
    where
      written : {W : Type 0} → Option ℕ × W → Option (Option ℕ) × W
      written (none, w) = (none, w)
      written (some e, w) = (some (some e), w)
