-- ===== src/Broker.antt =====
-- internal/broker/broker.go: the lists of the environment, which brokers are configured, and the selection
-- of a publisher by name. The environment and the constructors of the brokers are arguments.
pub mod Kafka
pub mod Select
pub mod Deliveries
pub mod Rabbit
pub mod Nats
use otus_app.Base.{
  ℕ, suc, ◌+◌, Bool, true, false, List, [], ◌∷◌, ◌++◌, Option, none, some, if◌then◌else◌,
}
use otus_app.Text.{Text, codes, is_empty, text_eq}
use otus_app.Text.Trim.{trim_space}
use otus_app.Text.Split.{split}

-- The parts of a list that are not blank, trimmed.
unfoldable pub trimmed_parts : List Text → List Text
trimmed_parts [] = []
trimmed_parts (p ∷ ps) =
    let rest = trimmed_parts ps in if is_empty (trim_space p) then rest else trim_space p ∷ rest

unfoldable pub env_list : (Text → Text) → Text → List Text
env_list getenv key =
    if is_empty (trim_space (getenv key))
    then []
    else trimmed_parts (split (trim_space (getenv key)) b',')

unfoldable pub env_or : (Text → Text) → Text → Text → Text
env_or getenv key fallback =
    if is_empty (trim_space (getenv key)) then fallback else trim_space (getenv key)

abbrev pub is_nil : List Text → Bool
is_nil [] = true
is_nil (x ∷ xs) = false

unfoldable pub names_of : (Text → Text) → List (Text × Text) → List Text
names_of getenv [] = []
names_of getenv ((name, key) ∷ entries) =
    let rest = names_of getenv entries in if is_nil (env_list getenv key) then rest else name ∷ rest

unfoldable pub configured_names : (Text → Text) → List Text
configured_names getenv = names_of getenv (
    (codes "kafka", codes "KAFKA_BROKERS")
    ∷ (codes "rabbitmq", codes "RABBITMQ_URLS")
    ∷ (codes "nats", codes "NATS_URLS")
    ∷ [])

-- The counter otus_broker_published_total of one broker.
pub record Published : Type 0 where
  pub ok_count : ℕ
  pub error_count : ℕ

unfoldable pub count_published : {E : Type 0} → Option E → Published → Published
count_published none c = record c { ok_count = c.ok_count + 1 }
count_published (some e) c = record c { error_count = c.error_count + 1 }

module _ {E W : Type 0} where
  -- measuredPublisher.Publish, without the histogram of the duration.
  unfoldable pub measured_publish : (W → Option E × W) → Published × W → Option E × (Published × W)
  measured_publish publish (c, w) = let r = publish w in (r.0, (count_published r.0 c, r.1))
