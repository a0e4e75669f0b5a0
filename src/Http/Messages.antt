-- ===== src/Http/Messages.antt =====
-- internal/handlers/handlers.go: createMessage, listMessages, listAudit and readiness. The stores, the
-- cache, the audit log and the counter of messages are one world W, which the ports change.
pub mod Coherence
use otus_app.Base.{ℕ, List, [], ◌∷◌, Option, none, some, Bool, if◌then◌else◌}
use otus_app.Text.{Text, codes, insert}
use otus_app.Messaging.{
  Message, Store, Result, ok, err, Error, empty_text, idempotency_conflict, lease_lost, other,
  service_create, service_list, validate_text,
}
use otus_app.Http.{
  Request, Response, Body, header_get, write_json, error_response, error_text, status_text,
  raw_text, message_body, messages_body, entries_body,
}

-- MessagesCache and AuditLog.
pub record Cache (W : Type 0) : Type 0 where
  pub get : Text → W → Option Text × W
  pub set : Text → Text → W → W
  pub delete : Text → W → W

pub record AuditLog (W : Type 0) : Type 0 where
  pub record_event : Text → Text → W → W
  pub last : ℕ → W → Result (List (Text × Text)) × W

-- The fields of API that the handlers of messages use, and MessagesCreated.Inc.
pub record Api (W : Type 0) : Type 0 where
  pub store : Store W
  pub ready : Option (W → Option ℕ × W)
  pub audit_log : Option (AuditLog W)
  pub cache : Option (Cache W)
  pub count_created : W → W

abbrev pub cache_key : Text
cache_key = codes "messages"

-- The answer of createMessage to an error of the service.
unfoldable pub create_error : Error → Response
create_error idempotency_conflict =
    error_response 409 (codes "ключ идемпотентности уже использован для другого текста")
create_error empty_text = error_response 500 (codes "не удалось сохранить сообщение")
create_error lease_lost = error_response 500 (codes "не удалось сохранить сообщение")
create_error (other n) = error_response 500 (codes "не удалось сохранить сообщение")

abbrev pub hit_response : Text → Response
hit_response raw = record {
  status = 200;
  header =
      insert (codes "X-Cache") (codes "HIT")
        (insert (codes "Content-Type") (codes "application/json") []);
  body = raw_text raw;
}

module _ {W : Type 0} where
  unfoldable pub record_created : Option (AuditLog W) → Text → W → W
  record_created none text w = w
  record_created (some log) text w = log.record_event (codes "создано сообщение") text w

  unfoldable pub forget_cached : Option (Cache W) → W → W
  forget_cached none w = w
  forget_cached (some c) w = c.delete cache_key w

  unfoldable pub after_create : Api W → Result Message × W → Response × W
  after_create api (err e, w) = (create_error e, w)
  after_create api (ok m, w) = (
    write_json [] 201 (message_body m),
    forget_cached api.cache (record_created api.audit_log m.text (api.count_created w)),
  )

  -- createMessage after the validation of the text.
  unfoldable pub create_valid : Api W → Option Error → Text → Text → W → Response × W
  create_valid api (some e) text key w = (error_response 400 (codes "поле text обязательно"), w)
  create_valid api none text key w = after_create api (service_create api.store text key w)

  -- createMessage; the argument is the text that the body decodes to.
  unfoldable pub create_decoded : Api W → Option Text → Text → W → Response × W
  create_decoded api none key w = (error_response 400 (codes "некорректное тело запроса"), w)
  create_decoded api (some text) key w = create_valid api (validate_text text) text key w

  -- `decode` is the decoding of {"text": …}.
  unfoldable pub create_message : Api W → (Text → Option Text) → Request → W → Response × W
  create_message api decode r w =
      create_decoded api (decode r.body) (header_get r (codes "Idempotency-Key")) w

  -- What listMessages does with the messages when there is a cache: a text that cannot be encoded is not
  -- stored.
  unfoldable pub fill_cache : Cache W → Option Text → W → W
  fill_cache c none w = w
  fill_cache c (some raw) w = c.set cache_key raw w

  unfoldable pub answer_list :
      Option (Cache W) → (List Message → Option Text) → Result (List Message) × W → Response × W
  answer_list cache marshal (err e, w) =
      (error_response 500 (codes "не удалось получить сообщения"), w)
  answer_list none marshal (ok ms, w) = (write_json [] 200 (messages_body ms), w)
  answer_list (some c) marshal (ok ms, w) = (
    write_json ((codes "X-Cache", codes "MISS") ∷ []) 200 (messages_body ms),
    fill_cache c (marshal ms) w,
  )

  -- The answer when the cache was read.
  unfoldable pub list_cached :
      Api W → Cache W → (List Message → Option Text) → Option Text × W → Response × W
  list_cached api c marshal (some raw, w) = (hit_response raw, w)
  list_cached api c marshal (none, w) = answer_list (some c) marshal (service_list api.store w)

  unfoldable pub list_with :
      Option (Cache W) → Api W → (List Message → Option Text) → W → Response × W
  list_with none api marshal w = answer_list none marshal (service_list api.store w)
  list_with (some c) api marshal w = list_cached api c marshal (c.get cache_key w)

  -- listMessages; `marshal` is the encoding to JSON.
  unfoldable pub list_messages : Api W → (List Message → Option Text) → W → Response × W
  list_messages api marshal w = list_with api.cache api marshal w

  unfoldable pub audit_answer : Result (List (Text × Text)) × W → Response × W
  audit_answer (err e, w) = (error_response 500 (codes "не удалось получить аудит-лог"), w)
  audit_answer (ok entries, w) = (write_json [] 200 (entries_body entries), w)

  unfoldable pub list_audit : Option (AuditLog W) → W → Response × W
  list_audit none w = (error_response 503 (codes "аудит-лог не настроен"), w)
  list_audit (some log) w = audit_answer (log.last 10 w)

  unfoldable pub ready_answer : Option ℕ × W → Response × W
  ready_answer (some e, w) = (write_json [] 503 (status_text (codes "база данных недоступна")), w)
  ready_answer (none, w) = (write_json [] 200 (status_text (codes "готов")), w)

  unfoldable pub readiness : Option (W → Option ℕ × W) → W → Response × W
  readiness none w = ready_answer (none, w)
  readiness (some check) w = ready_answer (check w)
