-- ===== src/Tests/Rpc.antt =====
-- The theorems on the gRPC service at concrete inputs, and runs of its methods.
use otus_app.Base.{
  ℕ, ◌+◌, ◌≡◌, refl, true, false, List, [], ◌∷◌, ◌++◌, Option, none, some, ◌⊎◌, length, map,
}
use otus_app.Base.Int.{pos, ◌≤ℤ◌}
use otus_app.Text.{Text, codes, text_eq, is_empty}
use otus_app.Text.Trim.{trim_space, trim_left, is_space}
use otus_app.Messaging.{Message, Store, ok, validate_text, service_create, service_list}
use otus_app.Rpc.{
  Server, Reply, Status, with_auth, is_protected, create_method, batch_create, list_messages, chat,
  limit_messages, success, failure,
}
use otus_app.Rpc.Auth.{HasValidToken, with_auth_protected}
use otus_app.Rpc.Batch.{Outcome, batch_create-Outcome}
use otus_app.Rpc.Streams.{Sends, list_messages-Sends, chat-Sends, limit_messages_prefix, echo}

abbrev message : ℕ → Text → Message
message id text = record { id = id; text = text; checksum = []; checksum_ok = true; created_at = 0 }

-- A store whose state is the number of its messages.
abbrev counting_store : Store ℕ
counting_store = record {
  create = λ deadline text key w. (ok (message (w + 1) text), w + 1);
  list = λ deadline w. (ok (message 1 (codes "a") ∷ message 2 (codes "b") ∷ []), w);
}

abbrev server : Server ℕ
server = record { world = 7; created = 0 }

-- A single token is valid.
abbrev only_token : Text → Option ℕ
only_token raw = elim (text_eq raw (codes "t")) [ true ↦ none | false ↦ some 1 ]

abbrev count_call : ℕ → Reply ℕ × ℕ
count_call n = (success n, n + 1)

with_auth_protected_example :
    HasValidToken only_token (codes "Bearer x" ∷ [])
    ⊎ ((e : Status) × (with_auth
            (some only_token)
            create_method
            (codes "Bearer x" ∷ [])
            count_call
            5
          ≡ (failure e, 5)))
unfolding is_protected text_eq
with_auth_protected_example =
    with_auth_protected only_token create_method (codes "Bearer x" ∷ []) count_call 5 refl

abbrev two_texts : List Text
two_texts = codes "a" ∷ codes "b" ∷ []

batch_create-Outcome_example :
    (let r = batch_create counting_store two_texts none none [] server in
      Outcome counting_store two_texts none none [] server r.0 r.1)
batch_create-Outcome_example = batch_create-Outcome counting_store two_texts none none [] server

-- Two texts make two messages; a blank text ends the batch after the first.
batch_of_two :
    batch_create counting_store two_texts none none [] server
    ≡ (success (pos 2, 8 ∷ 9 ∷ []), record { world = 9; created = 2 })
unfolding batch_create service_create validate_text is_empty trim_space trim_left is_space
    otus_app.Rpc.batch_next otus_app.Rpc.summary otus_app.Rpc.to_int32 otus_app.Rpc.send_and_close
batch_of_two = refl

abbrev no_fault : ℕ → Option ℕ
no_fault n = none

list_messages-Sends_example :
    (let r = list_messages counting_store (pos 1) no_fault server in
      Sends no_fault 0
        (limit_messages (pos 1) (message 1 (codes "a") ∷ message 2 (codes "b") ∷ []))
        r.0.0
        r.0.1
      × (r.1.world ≡ 7)
      × (r.1.created ≡ 0))
unfolding service_list
list_messages-Sends_example =
    list_messages-Sends counting_store (pos 1) no_fault server
      (message 1 (codes "a") ∷ message 2 (codes "b") ∷ []) 7 refl

limit_messages_prefix_example :
    (let ms = message 1 (codes "a") ∷ message 2 (codes "b") ∷ [] in
      (rest : List Message) × (limit_messages (pos 1) ms ++ rest ≡ ms)
      × (pos 1 ≤ℤ pos 1 → pos (length (limit_messages (pos 1) ms)) ≤ℤ pos 1)
      × (pos 1 ≤ℤ pos 0 → rest ≡ []))
limit_messages_prefix_example =
    limit_messages_prefix (pos 1) (message 1 (codes "a") ∷ message 2 (codes "b") ∷ [])

chat-Sends_example :
    (let r = chat no_fault 0 two_texts none in Sends no_fault 0 (map echo two_texts) r.0 r.1)
chat-Sends_example = chat-Sends no_fault 0 two_texts
