-- ===== src/Gateway.antt =====
-- cmd/gateway/main.go: forward, the copy of headers and the idempotency key. The client of the app, the
-- random source and net.SplitHostPort are arguments.
pub mod Forwarding
pub mod Calls
use otus_app.Base.{
  ℕ, ◌+◌, ◌-◌, ◌/◌, ◌%◌, Bool, true, false, ◌&&◌, ◌||◌, List, [], ◌∷◌, ◌++◌, Option, none, some,
  ltb, if◌then◌else◌,
}
use otus_app.Text.{Text, codes, text_eq, is_empty}
use otus_app.Text.Headers.{Header, header_add, header_set, header_value, equal_fold}
use otus_app.Http.{Response, Body, error_response}

-- What forward reads of a request, and what it sends.
pub record Incoming : Type 0 where
  pub header : Header
  pub remote_addr : Text
  pub body : Text

pub record Outgoing : Type 0 where
  pub method : Text
  pub header : Header
  pub body : Text

abbrev pub hop_headers : List Text
hop_headers =
    codes "Connection"
    ∷ codes "Keep-Alive"
    ∷ codes "Proxy-Authenticate"
    ∷ codes "Proxy-Authorization"
    ∷ codes "Te"
    ∷ codes "Trailer"
    ∷ codes "Transfer-Encoding"
    ∷ codes "Upgrade"
    ∷ []

unfoldable pub folds_to_any : Text → List Text → Bool
folds_to_any name [] = false
folds_to_any name (h ∷ hs) = equal_fold name h || folds_to_any name hs

unfoldable pub is_hop_header : Text → Bool
is_hop_header name = folds_to_any name hop_headers

unfoldable pub copy_headers : Header → Header → Header
copy_headers dst [] = dst
copy_headers dst ((name, value) ∷ src) =
    copy_headers (if is_hop_header name then dst else header_add name value dst) src

abbrev pub hex_digit : ℕ → ℕ
hex_digit n = if ltb n 10 then b'0' + n else b'a' + (n - 10)

-- hex.EncodeToString
unfoldable pub hex_text : Text → Text
hex_text [] = []
hex_text (b ∷ bs) = hex_digit (b / 16) ∷ hex_digit (b % 16) ∷ hex_text bs

-- newIdemKey: 16 random bytes, or the time as text when the random source fails.
unfoldable pub new_idem_key : Option Text → Text → Text
new_idem_key none stamp = stamp
new_idem_key (some bytes) stamp = hex_text bytes

abbrev pub post : Text
post = codes "POST"

abbrev pub idempotency_key : Text
idempotency_key = codes "Idempotency-Key"

abbrev pub forwarded_for : Text
forwarded_for = codes "X-Forwarded-For"

unfoldable pub with_key : Text → Text → Header → Header
with_key method key h =
    if text_eq method post && is_empty (header_value idempotency_key h)
    then header_set idempotency_key key h
    else h

-- The address of the client behind those that the request names already.
unfoldable pub with_forwarded : Option Text → Text → Header → Header
with_forwarded none prior h = h
with_forwarded (some host) prior h =
    header_set forwarded_for (if is_empty prior then host else prior ++ codes ", " ++ host) h

-- The request that forward builds.
unfoldable pub outgoing : (Text → Option Text) → Text → Text → Incoming → Outgoing
outgoing split_host key method r = record {
  method = method;
  header =
      with_forwarded (split_host r.remote_addr) (header_value forwarded_for r.header)
        (with_key method key (copy_headers [] r.header));
  body = r.body;
}

-- The app's answer, copied.
unfoldable pub relay : Option Response → Response
relay none = error_response 502 (codes "app недоступен")
relay (some r) = record r { header = copy_headers [] r.header }

module _ {W : Type 0} where
  -- forward; `valid` is whether NewRequestWithContext accepts the method and the URL.
  unfoldable pub forward :
      (Text → Option Text)
      → Bool
      → (Outgoing → W → Option Response × W)
      → Text
      → Text
      → Incoming
      → W
      → Response × W
  forward split_host valid app key method r w =
      if valid
      then (let answer = app (outgoing split_host key method r) w in (relay answer.0, answer.1))
      else (error_response 500 (codes "не удалось собрать запрос"), w)

  -- The handlers of POST and GET /gw/messages; a GET has no body.
  unfoldable pub proxy_create :
      (Text → Option Text)
      → Bool
      → (Outgoing → W → Option Response × W)
      → Text
      → Incoming
      → W
      → Response × W
  proxy_create split_host valid app key r w = forward split_host valid app key post r w

  unfoldable pub proxy_list :
      (Text → Option Text)
      → Bool
      → (Outgoing → W → Option Response × W)
      → Text
      → Incoming
      → W
      → Response × W
  proxy_list split_host valid app key r w =
      forward split_host valid app key (codes "GET") (record r { body = [] }) w
