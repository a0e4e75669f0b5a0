-- ===== src/Gateway/Calls/Statuses.antt =====
-- Both ways of creating a message through the service give the same answer.
use otus_app.Base.{
  ℕ, Bool, ◌&&◌, leb, Option, Option-cases, ◌≡◌, refl, true, false, List, [], ◌∷◌, ◌++◌, none, some,
  if◌then◌else◌, inl, inr, Bool-cases,
}
use otus_app.Text.{Text, codes, is_empty, text_eq, cut_prefix}
use otus_app.Text.Trim.{trim_space}
use otus_app.Text.Headers.{Header, header_value}
use otus_app.Messaging.{
  Message, Store, Result, ok, err, empty_text, idempotency_conflict, lease_lost, other,
  service_create, validate_text,
}
use otus_app.Http.{Response}
use otus_app.Http.Messages.{Api, create_decoded, create_valid, after_create, create_error}
use otus_app.Rpc
use otus_app.Rpc.{
  Server, Reply, success, failure, create_status, count_created, create_method, is_protected,
}
use otus_app.Security.Gate.{
  ParserOptions, parser_options, auth_middleware, with_token, after_validate, validate, bearer,
}
use otus_app.Gateway.Calls.{
  metadata_pair, Got, value, status, create_answer, grpc_create, write_grpc_error, http_status,
  status_message, with_auth,
}

abbrev pub got : Reply Message → Got Message
got (success m) = value m
got (failure s) = status s

-- md.Get: the values under a name.
unfoldable pub md_get : Text → Header → List Text
md_get name [] = []
md_get name ((n, v) ∷ md) = let rest = md_get name md in if text_eq n name then v ∷ rest else rest

abbrev sent_values : Text → List Text
sent_values v = if is_empty v then [] else v ∷ []

-- The values of the two pairs that withAuth may append.
md_get-with_auth :
    (h : Header)
    → (md_get (codes "authorization") (with_auth h)
        ≡ sent_values (header_value (codes "Authorization") h))
      × (md_get (codes "idempotency-key") (with_auth h)
          ≡ sent_values (header_value (codes "Idempotency-Key") h))
unfolding with_auth metadata_pair md_get text_eq
md_get-with_auth h =
    pairs (header_value (codes "Authorization") h) (header_value (codes "Idempotency-Key") h)
  where
    pairs :
        (a k : Text)
        → (let md =
              metadata_pair (codes "authorization") a
              ++ metadata_pair (codes "idempotency-key") k in
            (md_get (codes "authorization") md ≡ sent_values a)
            × (md_get (codes "idempotency-key") md ≡ sent_values k))
    pairs a k = elim (Bool-cases (is_empty a)) [
      | inl e ↦ elim (Bool-cases (is_empty k)) [
        | inl f ↦ rw (e, f) (refl, refl)
        | inr f ↦ rw (e, f) (refl, refl)
      ]
      | inr e ↦ elim (Bool-cases (is_empty k)) [
        | inl f ↦ rw (e, f) (refl, refl)
        | inr f ↦ rw (e, f) (refl, refl)
      ]
    ]

-- What gRPC accepts as the value of a metadata pair: printable ASCII.
abbrev is_printable : Text → Bool
is_printable [] = true
is_printable (c ∷ cs) = (leb 32 c && leb c 126) && is_printable cs

abbrev pub is_sendable : Header → Bool
is_sendable [] = true
is_sendable ((name, v) ∷ md) = is_printable v && is_sendable md

-- The configured authorization, which both servers share: jwt.Parse and the issuer. A nil Auth is `none`.
abbrev pub Authorization : Type 0
Authorization = Option ((ParserOptions → Text → Option ℕ) × Text)

abbrev validation : Authorization → Option (Text → Option ℕ)
validation none = none
validation (some (parse, issuer)) = some (λ raw. parse (parser_options issuer) raw)

module _ {W : Type 0} (store : Store W) where
  -- CreateMessage of the gRPC server behind authUnary, at the received metadata and text.
  abbrev pub served : Authorization → Header → Text → Server W → Reply Message × Server W
  served auth md text s =
      Rpc.with_auth (validation auth) create_method (md_get (codes "authorization") md)
        (Rpc.create_message store text (md_get (codes "idempotency-key") md)) s

  -- The HTTP API of the same store, with neither audit log nor cache; the counter is the server's.
  abbrev pub api : Api W
  api = record {
    store = store;
    ready = none;
    audit_log = none;
    cache = none;
    count_created = λ w. w;
  }

  first_values : (key : Text) → Rpc.first_or_empty (sent_values key) ≡ key
  unfolding is_empty
  first_values [] = refl
  first_values (c ∷ cs) = refl

  same_answer :
      (r : Result Message × W) (s : Server W)
      → (create_answer (got (count_created store r s).0, (count_created store r s).1)).0
        ≡ (after_create api r).0
  unfolding create_answer after_create count_created create_status create_error write_grpc_error
      http_status status_message
  same_answer (ok m, w) s = refl
  same_answer (err empty_text, w) s = refl
  same_answer (err idempotency_conflict, w) s = refl
  same_answer (err lease_lost, w) s = refl
  same_answer (err (other n), w) s = refl

  validate_text-blank :
      (text : Text) → is_empty (trim_space text) ≡ true → validate_text text ≡ some empty_text
  unfolding validate_text
  validate_text-blank text b = rw b refl

  validate_text-visible :
      (text : Text) → is_empty (trim_space text) ≡ false → validate_text text ≡ none
  unfolding validate_text
  validate_text-visible text b = rw b refl

  -- At the same key.
  answers_agree :
      (text key : Text) (s : Server W)
      → (let r = Rpc.create_message store text (sent_values key) s in
          (create_answer (got r.0, r.1)).0 ≡ (create_decoded api (some text) key s.world).0)
  unfolding Rpc.create_message create_decoded
  answers_agree text key s = elim (Bool-cases (is_empty (trim_space text))) [
    | inl b ↦
        rw (b, validate_text-blank text b)
          (unfold create_valid create_answer write_grpc_error http_status status_message in refl)
    | inr b ↦
        rw (b, validate_text-visible text b, first_values key)
          (unfold create_valid in same_answer (service_create store text key s.world) s)
  ]

  -- auth.Middleware around the rest of the route.
  abbrev guarded : Authorization → Text → (W → Response × W) → W → Response × W
  guarded none header next w = next w
  guarded (some (parse, issuer)) header next w =
      auth_middleware (λ options raw w'. (parse options raw, w')) issuer next header w

  -- POST /messages of the HTTP API at a decoded body, without its limiter.
  abbrev pub http_create : Authorization → Text → Header → W → Response × W
  http_create auth text header w =
      guarded auth (header_value (codes "Authorization") header)
        (create_decoded api (some text) (header_value (codes "Idempotency-Key") header)) w

  -- Both guards let the same calls through and refuse the others with the same answer.
  guards_agree :
      (auth : Authorization) (v : Text) (handler : Server W → Reply Message × Server W)
      (next : W → Response × W) (s : Server W)
      → (create_answer (got (handler s).0, (handler s).1)).0 ≡ (next s.world).0
      → (let r = Rpc.with_auth (validation auth) create_method (sent_values v) handler s in
          (create_answer (got r.0, r.1)).0 ≡ (guarded auth v next s.world).0)
  unfolding Rpc.with_auth Rpc.resume Rpc.check_auth Rpc.check_values Rpc.check_token is_protected
      text_eq auth_middleware with_token after_validate validate create_answer write_grpc_error
      http_status status_message is_empty cut_prefix
  guards_agree none v handler next s same = same
  guards_agree (some (parse, issuer)) [] handler next s same = refl
  guards_agree (some (parse, issuer)) (c ∷ cs) handler next s same =
      elim (Option-cases (cut_prefix (c ∷ cs) bearer)) [
        | inl p ↦ rw p refl
        | inr (raw, p) ↦ elim (Bool-cases (is_empty raw)) [
          | inl b ↦ rw (p, b) refl
          | inr b ↦ elim (Option-cases (parse (parser_options issuer) raw)) [
            | inl q ↦ rw (p, b, q) same
            | inr (e, q) ↦ rw (p, b, q) refl
          ]
        ]
      ]

  -- A transport that gives sendable metadata and texts that fit into its messages to the service, and
  -- the service's answer to the client.
  abbrev pub Delivers :
      (Text → Bool)
      → ((Header → Text → Server W → Reply Message × Server W)
          → Header
          → Text
          → Server W
          → Got Message × Server W)
      → Type 0
  Delivers fits transport =
      (service : Header → Text → Server W → Reply Message × Server W) (md : Header) (text : Text)
      (s : Server W)
      → is_sendable md ≡ true
      → fits text ≡ true
      → transport service md text s ≡ (got (service md text s).0, (service md text s).1)

  -- With the same configured authorization, or none, on both servers, and a transport that hands
  -- on metadata of printable ASCII and texts that fit into its messages: for a decoded body and a
  -- header with such values, the answer to a POST that the gateway sends over gRPC, through the
  -- authorization of the gRPC server, is the answer that the HTTP API of the same store gives to
  -- the same text and header behind its authorization, without its limiter, in its status and its
  -- body.
  pub grpc_create-create_decoded :
      (fits : Text → Bool)
      (transport : (Header → Text → Server W → Reply Message × Server W)
        → Header
        → Text
        → Server W
        → Got Message × Server W)
      (auth : Authorization) (text : Text) (header : Header) (s : Server W)
      → Delivers fits transport
      → is_sendable (with_auth header) ≡ true
      → fits text ≡ true
      → (grpc_create (transport (served auth)) (some text) header s).0
        ≡ (http_create auth text header s.world).0
  unfolding grpc_create
  grpc_create-create_decoded fits transport auth text header s delivers sendable fit =
      let (a, k) = md_get-with_auth header in
      let key = header_value (codes "Idempotency-Key") header in
      rw (delivers (served auth) (with_auth header) text s sendable fit) (
        rw (a, k)
          (guards_agree auth (header_value (codes "Authorization") header)
            (Rpc.create_message store text (sent_values key)) (create_decoded api (some text) key) s
            (answers_agree text key s)))
