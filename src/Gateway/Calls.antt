-- ===== src/Gateway/Calls.antt =====
-- cmd/gateway/grpc.go: the HTTP handlers in front of the gRPC service. The client of the service is a
-- parameter; a call carries the metadata that withAuth takes from the headers.
pub mod Statuses
use otus_app.Base.{
  ℕ, ◌+◌, Bool, true, false, List, [], ◌∷◌, ◌++◌, Option, none, some, if◌then◌else◌,
}
use otus_app.Base.Int.{ℤ}
use otus_app.Text.{Text, codes, is_empty}
use otus_app.Text.Headers.{Header, header_value}
use otus_app.Messaging.{Message}
use otus_app.Rpc.{
  Status, unauthenticated, invalid_argument, already_exists, internal, stream_failed,
}
use otus_app.Http.{
  Response, Body, error_response, write_json, message_body, batch_body, replies_body,
}

-- withAuth: the pairs that it appends to the metadata.
unfoldable pub metadata_pair : Text → Text → Header
metadata_pair name value = if is_empty value then [] else (name, value) ∷ []

unfoldable pub with_auth : Header → Header
with_auth header =
    metadata_pair (codes "authorization") (header_value (codes "Authorization") header)
    ++ metadata_pair (codes "idempotency-key") (header_value (codes "Idempotency-Key") header)

-- writeGRPCError; the text of an error that is no status is the text of `stream_failed`.
unfoldable pub http_status : Status → ℕ
http_status (unauthenticated t) = 401
http_status (already_exists t) = 409
http_status (invalid_argument t) = 400
http_status (internal t) = 500
http_status (stream_failed e) = 502

unfoldable pub status_message : Status → Text
status_message (unauthenticated t) = t
status_message (already_exists t) = t
status_message (invalid_argument t) = t
status_message (internal t) = t
status_message (stream_failed e) = codes "stream failed"

unfoldable pub write_grpc_error : Status → Response
write_grpc_error s = error_response (http_status s) (status_message s)

abbrev pub bad_body : Response
bad_body = error_response 400 (codes "некорректное тело запроса")

-- What a stream gives: its value, or the status that ended it.
pub data Got (A : Type 0) : Type 0 where
  value : A → Got A
  status : Status → Got A

-- The loop of grpcList over the answers of Recv; an error after the start only ends the answer.
unfoldable pub received_messages : List (Got Message) → List Message
received_messages [] = []
received_messages (value m ∷ rest) = m ∷ received_messages rest
received_messages (status s ∷ rest) = []

-- grpcList: an answer with the received messages, one JSON value to a line, or an error.
pub data Listing : Type 0 where
  lines : List Message → Listing
  failed_listing : Response → Listing

-- The texts that the loop of grpcBatch sends: it stops silently at the Send that fails.
unfoldable pub sent_texts : (ℕ → Bool) → ℕ → List Text → List Text
sent_texts sends n [] = []
sent_texts sends n (t ∷ ts) =
    let rest = sent_texts sends (n + 1) ts in if sends n then t ∷ rest else []

-- One round of grpcChat: a Send and a Recv.
abbrev pub chat_round : Got Text → Got (List Text) → Got (List Text)
chat_round (status s) rest = status s
chat_round (value t) (status s) = status s
chat_round (value t) (value ts) = value (t ∷ ts)

-- The loop of grpcChat; `exchange` answers the n-th note.
unfoldable pub chat_rounds : (ℕ → Text → Got Text) → ℕ → List Text → Got (List Text)
chat_rounds exchange n [] = value []
chat_rounds exchange n (note ∷ notes) =
    chat_round (exchange n note) (chat_rounds exchange (n + 1) notes)

abbrev pub chat_answer : Got (List Text) → Response
chat_answer (value ts) = write_json [] 200 (replies_body ts)
chat_answer (status s) = write_grpc_error s

abbrev pub chat_opened : Option Status → (ℕ → Text → Got Text) → List Text → Response
chat_opened (some s) exchange notes = write_grpc_error s
chat_opened none exchange notes = chat_answer (chat_rounds exchange 0 notes)

-- grpcChat; the stream is opened with the metadata of withAuth.
unfoldable pub grpc_chat :
    (Header → Option Status) → (ℕ → Text → Got Text) → Option (List Text) → Header → Response
grpc_chat open_stream exchange none header = bad_body
grpc_chat open_stream exchange (some []) header =
    error_response 400 (codes "поле notes обязательно")
grpc_chat open_stream exchange (some (n ∷ ns)) header =
    chat_opened (open_stream (with_auth header)) exchange (n ∷ ns)

module _ {W : Type 0} where
  unfoldable pub create_answer : Got Message × W → Response × W
  create_answer (value m, w) = (write_json [] 201 (message_body m), w)
  create_answer (status s, w) = (write_grpc_error s, w)

  -- grpcCreate; the Option is the decoded body.
  unfoldable pub grpc_create :
      (Header → Text → W → Got Message × W) → Option Text → Header → W → Response × W
  grpc_create client none header w = (bad_body, w)
  grpc_create client (some text) header w = create_answer (client (with_auth header) text w)

  abbrev pub list_answer : Got (List (Got Message)) × W → Listing × W
  list_answer (value answers, w) = (lines (received_messages answers), w)
  list_answer (status s, w) = (failed_listing (write_grpc_error s), w)

  unfoldable pub grpc_list : (Header → W → Got (List (Got Message)) × W) → Header → W → Listing × W
  grpc_list client header w = list_answer (client (with_auth header) w)

  unfoldable pub batch_answer : Got (ℤ × List ℕ) × W → Response × W
  batch_answer (value (created, ids), w) = (write_json [] 201 (batch_body created ids), w)
  batch_answer (status s, w) = (write_grpc_error s, w)

  -- grpcBatch after the stream was opened; `close` is CloseAndRecv over the texts that were sent.
  unfoldable pub batch_stream :
      (List Text → W → Got (ℤ × List ℕ) × W) → (ℕ → Bool) → List Text → W → Response × W
  batch_stream close sends texts w = batch_answer (close (sent_texts sends 0 texts) w)

  abbrev pub batch_opened : Option Status → (W → Response × W) → W → Response × W
  batch_opened (some s) stream w = (write_grpc_error s, w)
  batch_opened none stream w = stream w

  unfoldable pub grpc_batch :
      (Header → Option Status)
      → (Header → List Text → W → Got (ℤ × List ℕ) × W)
      → (ℕ → Bool)
      → Option (List Text)
      → Header
      → W
      → Response × W
  grpc_batch open_stream close sends none header w = (bad_body, w)
  grpc_batch open_stream close sends (some []) header w =
      (error_response 400 (codes "поле texts обязательно"), w)
  grpc_batch open_stream close sends (some (t ∷ ts)) header w =
      batch_opened (open_stream (with_auth header))
        (batch_stream (close (with_auth header)) sends (t ∷ ts)) w
