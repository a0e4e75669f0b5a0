-- ===== src/Http.antt =====
-- internal/handlers: requests and responses of the HTTP API. A JSON object of the answer is a value of
-- Body with the fields that depend on the request; times that are only shown are left out.
pub mod Params
pub mod Ranges
pub mod Messages
pub mod Files
pub mod Search
use otus_app.Base.{ℕ, List, [], ◌∷◌, Option, none, some, Bool}
use otus_app.Base.Int.{ℤ}
use otus_app.Messaging.{Message}
use otus_app.Text.{Text, codes, lookup, insert}

-- What the handlers read of a request: query and headers by name, the path value, ContentLength, the
-- body's bytes.
pub record Request : Type 0 where
  pub query : List (Text × Text)
  pub header : List (Text × Text)
  pub path_value : Text
  pub content_length : ℤ
  pub body : Text

-- url.Values.Get and http.Header.Get: "" when the name is missing.
abbrev pub value_or_empty : Option Text → Text
value_or_empty none = []
value_or_empty (some v) = v

unfoldable pub query_get : Request → Text → Text
query_get r name = value_or_empty (lookup name r.query)

unfoldable pub header_get : Request → Text → Text
header_get r name = value_or_empty (lookup name r.header)

-- What an answer carries: an error or a status as text, or the value of the operation.
pub data Body : Type 0 where
  error_text status_text greeting : Text → Body
  raw_text : Text → Body
  file_bytes : Text → Body
  message_body : Message → Body
  messages_body : List Message → Body
  entries_body : List (Text × Text) → Body
  -- the source, the total and the found items, each as the JSON of the port's value
  found_body : Text → ℕ → List Text → Body
  -- Cassandra's: the total, the scanned rows, and the events
  scanned_body : ℕ → ℕ → List Text → Body
  item_body : Text → Body
  batch_body : ℤ → List ℕ → Body
  replies_body : List Text → Body
  tags_body : Text → List (Text × Text) → Body

pub record Response : Type 0 where
  pub status : ℕ
  pub header : List (Text × Text)
  pub body : Body

-- writeJSON onto the headers set so far.
unfoldable pub write_json : List (Text × Text) → ℕ → Body → Response
write_json header status body = record {
  status = status;
  header = insert (codes "Content-Type") (codes "application/json") header;
  body = body;
}

-- writeJSON of {"error": …} on fresh headers.
unfoldable pub error_response : ℕ → Text → Response
unfolding write_json
error_response status text = write_json [] status (error_text text)
