-- ===== src/Security/Tls.antt =====
-- internal/security/tls.go: ServerTLS, ClientTLS and loadCA over the environment. Reading files, key pairs and
-- pools of certificates is up to the arguments.
use otus_app.Base.{
  ℕ, ◌≡◌, refl, Bool, true, false, ◌&&◌, ◌||◌, not, Option, none, some, if◌then◌else◌, Bool-cases,
  inl, inr,
}
use otus_app.Text.{Text, codes, is_empty}

pub data TlsResult (A : Type 0) : Type 0 where
  config : A → TlsResult A
  tls_error : ℕ → TlsResult A

-- The fields of tls.Config that the code sets; RequireAndVerifyClientCert is the Boolean.
pub record TlsConfig (C P : Type 0) : Type 0 where
  pub certificate : Option C
  pub min_version : ℕ
  pub client_cas : Option P
  pub root_cas : Option P
  pub verifies_clients : Bool

-- tls.LoadX509KeyPair, os.ReadFile and AppendCertsFromPEM on a new pool.
pub record Loader (C P : Type 0) : Type 0 where
  pub load_pair : Text → Text → TlsResult C
  pub read_file : Text → TlsResult Text
  pub parse_pool : Text → Option P

-- tls.VersionTLS12
abbrev pub tls12 : ℕ
tls12 = 0x0303

abbrev pub cert_file : Text
cert_file = codes "TLS_CERT_FILE"

abbrev pub key_file : Text
key_file = codes "TLS_KEY_FILE"

abbrev pub ca_file : Text
ca_file = codes "TLS_CA_FILE"

module _ {C P : Type 0} (loader : Loader C P) where
  abbrev pub pool_of : Option P → TlsResult P
  pool_of none = tls_error 0
  pool_of (some pool) = config pool

  abbrev pub parsed_pool : TlsResult Text → TlsResult P
  parsed_pool (tls_error e) = tls_error e
  parsed_pool (config pem) = pool_of (loader.parse_pool pem)

  -- loadCA
  unfoldable pub load_ca : Text → TlsResult P
  load_ca path = parsed_pool (loader.read_file path)

  abbrev pub with_client_cas : TlsConfig C P → TlsResult P → TlsResult (Option (TlsConfig C P))
  with_client_cas cfg (tls_error e) = tls_error e
  with_client_cas cfg (config pool) =
      config (some (record cfg { client_cas = some pool; verifies_clients = true }))

  abbrev pub plain_config : Option C → TlsConfig C P
  plain_config cert = record {
    certificate = cert;
    min_version = tls12;
    client_cas = none;
    root_cas = none;
    verifies_clients = false;
  }

  -- ServerTLS from the key pair on.
  unfoldable pub server_with : Text → TlsResult C → TlsResult (Option (TlsConfig C P))
  server_with ca (tls_error e) = tls_error e
  server_with ca (config cert) =
      if is_empty ca
      then config (some (plain_config (some cert)))
      else with_client_cas (plain_config (some cert)) (load_ca ca)

  unfoldable pub server_tls : (Text → Text) → TlsResult (Option (TlsConfig C P))
  server_tls getenv =
      if is_empty (getenv cert_file) && is_empty (getenv key_file)
      then config none
      else server_with (getenv ca_file) (loader.load_pair (getenv cert_file) (getenv key_file))

  abbrev pub with_pair : TlsConfig C P → TlsResult C → TlsResult (Option (TlsConfig C P))
  with_pair cfg (tls_error e) = tls_error e
  with_pair cfg (config cert) = config (some (record cfg { certificate = some cert }))

  -- ClientTLS from the pool of authorities on.
  unfoldable pub client_with :
      Text → Text → TlsResult (Option P) → TlsResult (Option (TlsConfig C P))
  client_with cert key (tls_error e) = tls_error e
  client_with cert key (config roots) =
      if not (is_empty cert) || not (is_empty key)
      then with_pair (record (plain_config none) { root_cas = roots }) (loader.load_pair cert key)
      else config (some (record (plain_config none) { root_cas = roots }))

  abbrev pub some_pool : TlsResult P → TlsResult (Option P)
  some_pool (tls_error e) = tls_error e
  some_pool (config pool) = config (some pool)

  unfoldable pub client_tls : (Text → Text) → TlsResult (Option (TlsConfig C P))
  client_tls getenv =
      if is_empty (getenv cert_file) && is_empty (getenv key_file) && is_empty (getenv ca_file)
      then config none
      else client_with (getenv cert_file) (getenv key_file)
          (if is_empty (getenv ca_file) then config none else some_pool (load_ca (getenv ca_file)))

  -- With authorities configured, a server's configuration verifies its clients against their pool.
  abbrev pub IsMutual : Text → TlsResult (Option (TlsConfig C P)) → Type 0
  IsMutual ca (tls_error e) = Unit {0}
  IsMutual ca (config none) = Unit {0}
  IsMutual ca (config (some cfg)) =
      (cfg.min_version ≡ tls12)
      × (cfg.verifies_clients ≡ true)
      × ((pool : P) × (cfg.client_cas ≡ some pool) × (load_ca ca ≡ config pool))

  with_client_cas-IsMutual :
      (ca : Text) (cert : C) (r : TlsResult P)
      → load_ca ca ≡ r
      → IsMutual ca (with_client_cas (plain_config (some cert)) r)
  with_client_cas-IsMutual ca cert (tls_error e) h = tt
  with_client_cas-IsMutual ca cert (config pool) h = (refl, refl, (pool, refl, h))

  server_with-IsMutual :
      (ca : Text) (r : TlsResult C) → is_empty ca ≡ false → IsMutual ca (server_with ca r)
  unfolding server_with
  server_with-IsMutual ca (tls_error e) h = tt
  server_with-IsMutual ca (config cert) h =
      rw h (with_client_cas-IsMutual ca cert (load_ca ca) refl)

  -- With TLS_CA_FILE set, whatever the files hold: a configuration that ServerTLS returns demands
  -- TLS 1.2 and verifies the certificates of clients against the pool that loadCA read from that
  -- file.
  pub server_tls-IsMutual :
      (getenv : Text → Text)
      → is_empty (getenv ca_file) ≡ false
      → IsMutual (getenv ca_file) (server_tls getenv)
  unfolding server_tls
  server_tls-IsMutual getenv h =
      elim (Bool-cases (is_empty (getenv cert_file) && is_empty (getenv key_file))) [
        | inl b ↦ rw b tt
        | inr b ↦ rw b (server_with-IsMutual (getenv ca_file) _ h)
      ]
