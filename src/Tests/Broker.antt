-- ===== src/Tests/Broker.antt =====
-- The theorems on the brokers at concrete inputs.
use otus_app.Base.{ℕ, ◌+◌, ◌≡◌, refl, List, [], ◌∷◌, Option, none, some, true, false, ◌==◌}
use otus_app.Text.{Text, codes, is_empty, text_eq}
use otus_app.Text.Trim.{trim_space, trim_left, is_space}
use otus_app.Text.Split.{split}
use otus_app.Messaging.{MessageCreated}
use otus_app.Broker.{configured_names, names_of, env_list, trimmed_parts}
use otus_app.Broker.Kafka.{Record, Fetch, fetched, fetch_failed, Consumer, consume}
use otus_app.Broker.Kafka.Commits.{Outcome, records, consume-Outcome}

abbrev event_of : Text → Option MessageCreated
event_of [] = none
event_of (c ∷ cs) =
    some (record { id = c; text = cs; checksum = []; created_at = 0; producer = [] })

-- The event with the number 2 is refused.
abbrev refuse_two : MessageCreated → ℕ → Option ℕ × ℕ
refuse_two ev w = elim (ev.id == 2) [ true ↦ (some 5, w) | false ↦ (none, w + 1) ]

abbrev record_of : ℕ → Record
record_of n = record { partition = 0; offset = n; value = n ∷ [] }

abbrev fetches : List Fetch
fetches =
    fetched (record_of 1) none
    ∷ fetch_failed
    ∷ fetched (record_of 2) none
    ∷ fetched (record_of 3) none
    ∷ []

abbrev fresh : Consumer ℕ
fresh = record {
  world = 0;
  handled = [];
  committed = [];
  ok_count = 0;
  error_count = 0;
  malformed_count = 0;
}

consume-Outcome_example :
    (let x = consume event_of refuse_two fetches fresh in Outcome fresh (records fetches) x.0 x.1)
consume-Outcome_example = consume-Outcome event_of refuse_two fetches fresh

abbrev environment : Text → Text
environment key = elim (text_eq key (codes "NATS_URLS")) [ true ↦ codes " a, ,b" | false ↦ [] ]

only_nats : configured_names environment ≡ codes "nats" ∷ []
unfolding configured_names names_of env_list trimmed_parts split is_empty trim_space trim_left
    is_space text_eq
only_nats = refl
