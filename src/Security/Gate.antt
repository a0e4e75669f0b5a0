-- ===== src/Security/Gate.antt =====
-- internal/security/jwt.go: Middleware and Validate. jwt.Parse, which calls keyFor and so changes the cached
-- keys, is a parameter.
use otus_app.Base.{
  ℕ, ◌≡◌, refl, inl, inr, Bool, true, false, List, [], ◌∷◌, Option, none, some, Bool-cases,
  if◌then◌else◌,
}
use otus_app.Text.{Text, codes, cut_prefix, is_empty}
use otus_app.Http.{Response, error_response}

-- The options of Parse: the methods, whether an expiry is required, and the issuer if one is checked.
pub record ParserOptions : Type 0 where
  pub methods : List Text
  pub expiration_required : Bool
  pub issuer : Option Text

unfoldable pub parser_options : Text → ParserOptions
parser_options issuer = record {
  methods = codes "RS256" ∷ [];
  expiration_required = true;
  issuer = if is_empty issuer then none else some issuer;
}

abbrev pub auth_error : Text → Response
auth_error text = error_response 401 text

abbrev pub bearer : Text
bearer = codes "Bearer "

module _ {W : Type 0} (parse : ParserOptions → Text → W → Option ℕ × W) (issuer : Text)
    (next : W → Response × W) where
  unfoldable pub validate : Text → W → Option ℕ × W
  validate raw w = parse (parser_options issuer) raw w

  unfoldable pub after_validate : Option ℕ × W → Response × W
  after_validate (some e, w) = (auth_error (codes "недействительный токен"), w)
  after_validate (none, w) = next w

  unfoldable pub with_token : Option Text → W → Response × W
  with_token none w = (auth_error (codes "требуется токен авторизации"), w)
  with_token (some raw) w =
      if is_empty raw
      then (auth_error (codes "требуется токен авторизации"), w)
      else after_validate (validate raw w)

  -- Middleware with authorization configured, at the Authorization header.
  unfoldable pub auth_middleware : Text → W → Response × W
  auth_middleware header w = with_token (cut_prefix header bearer) w

  -- Only RS256, an expiry, and the issuer unless none is configured.
  abbrev IsStrict : ParserOptions → Type 0
  IsStrict options =
      (options.methods ≡ codes "RS256" ∷ [])
      × (options.expiration_required ≡ true)
      × (is_empty issuer ≡ false → options.issuer ≡ some issuer)
      × (is_empty issuer ≡ true → options.issuer ≡ none)

  parser_options-IsStrict : IsStrict (parser_options issuer)
  unfolding parser_options
  parser_options-IsStrict = (refl, refl, λ e. rw e, λ e. rw e)

  -- The request went to the next handler with a token that Parse accepted with such options, or was answered
  -- with 401, and then nothing but the check of the token changed the state.
  pub data Admitted (header : Text) (w : W) : Response × W → Type 0 where
    passed :
        (raw : Text) (w' : W) (options : ParserOptions)
        → IsStrict options
        → cut_prefix header bearer ≡ some raw
        → is_empty raw ≡ false
        → parse options raw w ≡ (none, w')
        → Admitted header w (next w')
    no_token : (text : Text) → Admitted header w (auth_error text, w)
    refused :
        (raw text : Text) (e : ℕ) (w' : W) (options : ParserOptions)
        → IsStrict options
        → parse options raw w ≡ (some e, w')
        → Admitted header w (auth_error text, w')

  after_validate-Admitted :
      (header raw : Text) (w : W) (r : Option ℕ × W)
      → cut_prefix header bearer ≡ some raw
      → is_empty raw ≡ false
      → parse (parser_options issuer) raw w ≡ r
      → Admitted header w (after_validate r)
  unfolding after_validate
  after_validate-Admitted header raw w (some e, w') c n h =
      refused raw (codes "недействительный токен") e w' (parser_options issuer)
        parser_options-IsStrict h
  after_validate-Admitted header raw w (none, w') c n h =
      passed raw w' (parser_options issuer) parser_options-IsStrict c n h

  with_token-Admitted :
      (header : Text) (w : W) (o : Option Text)
      → cut_prefix header bearer ≡ o
      → Admitted header w (with_token o w)
  unfolding with_token validate
  with_token-Admitted header w none h = no_token (codes "требуется токен авторизации")
  with_token-Admitted header w (some raw) h = elim (Bool-cases (is_empty raw)) [
    | inl b ↦ rw b (no_token (codes "требуется токен авторизации"))
    | inr b ↦
        rw b (after_validate-Admitted header raw w (parse (parser_options issuer) raw w) h b refl)
  ]

  -- With authorization configured, the middleware passes a request on only with a header that is
  -- Bearer and a token that is not empty and that the parser accepted with these options: RS256
  -- as the only method, a required expiry, and the configured issuer, or no check of the issuer
  -- if none is configured; every other request is answered with 401, and nothing but the check of
  -- its token changes the state.
  pub auth_middleware-Admitted :
      (header : Text) (w : W) → Admitted header w (auth_middleware header w)
  unfolding auth_middleware
  auth_middleware-Admitted header w = with_token-Admitted header w (cut_prefix header bearer) refl
