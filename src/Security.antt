-- ===== src/Security.antt =====
-- internal/security/jwt.go: the cache of the signing keys, keyFor and refreshKeys, and the middleware of
-- the HTTP API. Times are nanoseconds; the answer of the JWKS server is an argument.
pub mod Keys
pub mod Gate
pub mod Tls
use otus_app.Base.{
  ℕ, ◌+◌, ◌-◌, ◌*◌, Bool, true, false, List, [], ◌∷◌, Option, none, some, ltb, if◌then◌else◌,
}
use otus_app.Text.{Text, codes, lookup, insert, is_empty, text_eq, cut_prefix}

-- A public RSA key: N and E as base64 gave them.
pub record RsaKey : Type 0 where
  pub n : Text
  pub e : Text

-- An entry of the JWKS document.
pub record Jwk : Type 0 where
  pub kty : Text
  pub kid : Text
  pub n : Text
  pub e : Text

pub record Auth : Type 0 where
  pub keys : List (Text × RsaKey)
  pub last_refresh : ℕ

-- The answer of the server: a transport error or a body that does not decode, another status than 200,
-- or the document.
pub data Jwks : Type 0 where
  unreachable bad_status : Jwks
  document : List Jwk → Jwks

pub data KeyError : Type 0 where
  no_kid not_found fetch_failed no_rsa_keys : KeyError

pub data KeyResult : Type 0 where
  key : RsaKey → KeyResult
  key_error : KeyError → KeyResult

abbrev pub refresh_pause : ℕ
refresh_pause = 30 * 1000000000

module _ (decode : Text → Option Text) where
  -- One entry; `decode` is base64.RawURLEncoding.DecodeString.
  unfoldable pub decoded_key : Option Text → Option Text → Option RsaKey
  decoded_key none e = none
  decoded_key (some n) none = none
  decoded_key (some n) (some e) = some (record { n = n; e = e })

  abbrev pub store_key : Text → Option RsaKey → List (Text × RsaKey) → List (Text × RsaKey)
  store_key kid none keys = keys
  store_key kid (some k) keys = insert kid k keys

  unfoldable pub add_key : Jwk → List (Text × RsaKey) → List (Text × RsaKey)
  add_key k keys =
      if text_eq k.kty (codes "RSA")
      then store_key k.kid (decoded_key (decode k.n) (decode k.e)) keys
      else keys

  unfoldable pub read_keys : List Jwk → List (Text × RsaKey) → List (Text × RsaKey)
  read_keys [] keys = keys
  read_keys (k ∷ ks) keys = read_keys ks (add_key k keys)

  -- The keys replace the old ones, unless there are none.
  unfoldable pub replace_keys : ℕ → List (Text × RsaKey) → Auth → Option KeyError × Auth
  replace_keys now [] a = (some no_rsa_keys, a)
  replace_keys now (k ∷ ks) a = (none, record { keys = k ∷ ks; last_refresh = now })

  unfoldable pub refresh_keys : ℕ → Jwks → Auth → Option KeyError × Auth
  refresh_keys now unreachable a = (some fetch_failed, a)
  refresh_keys now bad_status a = (some fetch_failed, a)
  refresh_keys now (document ks) a = replace_keys now (read_keys ks []) a

  unfoldable pub found_or : Option RsaKey → KeyResult
  found_or none = key_error not_found
  found_or (some k) = key k

  -- The end of keyFor, after the refresh.
  unfoldable pub after_refresh : Text → Option KeyError × Auth → KeyResult × Auth
  after_refresh kid (some e, a) = (key_error e, a)
  after_refresh kid (none, a) = (found_or (lookup kid a.keys), a)

  unfoldable pub missing_key : Text → ℕ → Jwks → Auth → KeyResult × Auth
  missing_key kid now answer a =
      if ltb (now - a.last_refresh) refresh_pause
      then (key_error not_found, a)
      else after_refresh kid (refresh_keys now answer a)

  unfoldable pub cached_or : Text → ℕ → Jwks → Auth → Option RsaKey → KeyResult × Auth
  cached_or kid now answer a (some k) = (key k, a)
  cached_or kid now answer a none = missing_key kid now answer a

  -- keyFor; `answer` is what the server would say now.
  unfoldable pub key_for : Text → ℕ → Jwks → Auth → KeyResult × Auth
  key_for kid now answer a =
      if is_empty kid then (key_error no_kid, a) else cached_or kid now answer a (lookup kid a.keys)
