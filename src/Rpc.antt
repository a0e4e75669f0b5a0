-- ===== src/Rpc.antt =====
-- internal/grpcserver/server.go: the gRPC service of messages. The stores are a world W that the port
-- Messaging.Store changes; a stream is the sequence of its received messages and the answers of Send.
pub mod Auth
pub mod Batch
pub mod Streams
use otus_app.Base.{
  ℕ, suc, ◌+◌, ◌-◌, ◌%◌, ◌^◌, Bool, true, false, ◌&&◌, ◌||◌, not, ltb, List, [], ◌∷◌, ◌++◌, Option,
  none, some, if◌then◌else◌, length, take,
}
use otus_app.Base.Int.{ℤ, pos, negsuc}
use otus_app.Text.{Text, codes, text_eq, is_empty, cut_prefix}
use otus_app.Text.Trim.{trim_space}
use otus_app.Messaging.{
  Message, Store, Result, ok, err, Error, empty_text, idempotency_conflict, lease_lost, other,
  service_create, service_list,
}

-- The statuses that the service answers with; `stream_failed` passes on an error of Recv or Send.
pub data Status : Type 0 where
  unauthenticated invalid_argument already_exists internal : Text → Status
  stream_failed : ℕ → Status

abbrev pub create_method : Text
create_method = codes "/otus.v1.MessageService/CreateMessage"

abbrev pub batch_method : Text
batch_method = codes "/otus.v1.MessageService/BatchCreate"

unfoldable pub is_protected : Text → Bool
is_protected method = text_eq method create_method || text_eq method batch_method

abbrev pub token_required : Text
token_required = codes "требуется токен авторизации"

abbrev pub token_invalid : Text
token_invalid = codes "недействительный токен"

abbrev pub text_required : Text
text_required = codes "поле text обязательно"

abbrev pub not_saved : Text
not_saved = codes "не удалось сохранить сообщение"

abbrev pub not_listed : Text
not_listed = codes "не удалось получить сообщения"

abbrev pub conflict_text : Text
conflict_text = codes "ключ идемпотентности уже использован для другого текста"

-- The Bearer token of the first value, which Validate refuses with `some`.
unfoldable pub check_token : (Text → Option ℕ) → Option Text → Option Status
check_token validate none = some (unauthenticated token_required)
check_token validate (some raw) =
    if is_empty raw
    then some (unauthenticated token_required)
    else elim (validate raw) [ some e ↦ some (unauthenticated token_invalid) | none ↦ none ]

unfoldable pub check_values : (Text → Option ℕ) → List Text → Option Status
check_values validate [] = some (unauthenticated token_required)
check_values validate (v ∷ vs) = check_token validate (cut_prefix v (codes "Bearer "))

-- checkAuth; `none` lets the call through. A nil auth is `none`.
unfoldable pub check_auth : Option (Text → Option ℕ) → Text → List Text → Option Status
check_auth none method values = none
check_auth (some validate) method values =
    if is_protected method then check_values validate values else none

-- authUnary and authStream, which differ in what the handler answers, around a handler that changes a state.
pub data Reply {ℓ} (A : Type ℓ) : Type ℓ where
  success : A → Reply A
  failure : Status → Reply A

module _ {S A : Type 0} where
  unfoldable pub resume : Option Status → (S → Reply A × S) → S → Reply A × S
  resume (some e) handler s = (failure e, s)
  resume none handler s = handler s

  unfoldable pub with_auth :
      Option (Text → Option ℕ) → Text → List Text → (S → Reply A × S) → S → Reply A × S
  with_auth auth method values handler s = resume (check_auth auth method values) handler s

-- The store's world and the counter MessagesCreated.
pub record Server (W : Type 0) : Type 0 where
  pub world : W
  pub created : ℕ

-- md.Get("idempotency-key")
abbrev pub first_or_empty : List Text → Text
first_or_empty [] = []
first_or_empty (v ∷ vs) = v

unfoldable pub create_status : Error → Status
create_status idempotency_conflict = already_exists conflict_text
create_status empty_text = internal not_saved
create_status lease_lost = internal not_saved
create_status (other n) = internal not_saved

-- What is sent in all when one Send gave an error or none and the later ones are known.
abbrev pub after_send :
    {A : Type 0} → Option ℕ → A → List A × Option Status → List A × Option Status
after_send (some e) m rest = ([], some (stream_failed e))
after_send none m (sent, reply) = (m ∷ sent, reply)

-- The loop of Send: the messages that were sent, and the error of the n-th Send that stopped it.
unfoldable pub send_all : (ℕ → Option ℕ) → ℕ → List Message → List Message × Option Status
send_all send n [] = ([], none)
send_all send n (m ∷ ms) = after_send (send n) m (send_all send (suc n) ms)

-- msgs[:limit], for a limit that is positive and shorter than the list.
unfoldable pub limit_messages : ℤ → List Message → List Message
limit_messages (pos n) ms = if ltb 0 n && ltb n (length ms) then take n ms else ms
limit_messages (negsuc n) ms = ms

-- The answer when the store's is known.
unfoldable pub send_listed :
    {W : Type 0}
    → ℤ
    → (ℕ → Option ℕ)
    → Result (List Message) × W
    → Server W
    → (List Message × Option Status) × Server W
send_listed limit send (err e, w) s = (([], some (internal not_listed)), record s { world = w })
send_listed limit send (ok ms, w) s =
    (send_all send 0 (limit_messages limit ms), record s { world = w })

-- int32(n)
unfoldable pub to_int32 : ℕ → ℤ
to_int32 n = let m = n % 2 ^ 32 in if ltb m (2 ^ 31) then pos m else negsuc (2 ^ 32 - m - 1)

-- The summary of BatchCreate.
unfoldable pub summary : List ℕ → ℤ × List ℕ
summary ids = (to_int32 (length ids), ids)

-- The answer of SendAndClose with the summary: its error, or nil.
unfoldable pub send_and_close : Option ℕ → List ℕ → Reply (ℤ × List ℕ)
send_and_close none ids = success (summary ids)
send_and_close (some e) ids = failure (stream_failed e)

module _ {W : Type 0} where
  -- One received request, with the rest of the loop as a function of the new state and the new ids.
  unfoldable pub batch_next :
      Result Message × W
      → Server W
      → (ℕ → Server W → Reply (ℤ × List ℕ) × Server W)
      → Reply (ℤ × List ℕ) × Server W
  batch_next (err e, w) s continue = (failure (internal not_saved), record s { world = w })
  batch_next (ok m, w) s continue = continue m.id (record s { world = w; created = s.created + 1 })

module _ {W : Type 0} (store : Store W) where
  -- The outcome of s.store.Create, counted when it succeeds.
  unfoldable pub count_created : Result Message × W → Server W → Reply Message × Server W
  count_created (err e, w) s = (failure (create_status e), record s { world = w })
  count_created (ok m, w) s = (success m, record s { world = w; created = s.created + 1 })

  unfoldable pub create_message : Text → List Text → Server W → Reply Message × Server W
  create_message text keys s =
      if is_empty (trim_space text)
      then (failure (invalid_argument text_required), s)
      else count_created (service_create store text (first_or_empty keys) s.world) s

  unfoldable pub list_messages :
      ℤ → (ℕ → Option ℕ) → Server W → (List Message × Option Status) × Server W
  list_messages limit send s = send_listed limit send (service_list store s.world) s

  -- BatchCreate over the received texts; then Recv gives io.EOF (`none`) or an error. `closed` is what
  -- SendAndClose gives.
  unfoldable pub batch_create :
      List Text → Option ℕ → Option ℕ → List ℕ → Server W → Reply (ℤ × List ℕ) × Server W
  unfolding batch_next
  batch_create [] none closed ids s = (send_and_close closed ids, s)
  batch_create [] (some e) closed ids s = (failure (stream_failed e), s)
  batch_create (text ∷ texts) end closed ids s =
      if is_empty (trim_space text)
      then (failure (invalid_argument text_required), s)
      else batch_next (service_create store text [] s.world) s
          (λ id s'. batch_create texts end closed (ids ++ id ∷ []) s')

-- Chat: the replies that were sent, over the received notes and the end of the stream.
unfoldable pub chat : (ℕ → Option ℕ) → ℕ → List Text → Option ℕ → List Text × Option Status
chat send n [] none = ([], none)
chat send n [] (some e) = ([], some (stream_failed e))
chat send n (note ∷ notes) end =
    after_send (send n) (codes "эхо: " ++ note) (chat send (suc n) notes end)
