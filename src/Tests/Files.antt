-- ===== src/Tests/Files.antt =====
-- Writing to HDFS, the check of tokens and the configuration of TLS at concrete inputs.
use otus_app.Base.{
  ◌≡◌, refl, ℕ, ◌+◌, ◌-◌, true, false, Option, none, some, [], arith, ltb, if◌then◌else◌, length,
  ◌==◌,
}
use otus_app.Text.{Text, codes, text_eq}
use otus_app.Resilience.Retry.{Runtime}
use otus_app.Resilience.Retry.Budget.{DoneHasError}
use otus_app.Hdfs.Writing.{Writer, put_file, IsComplete, put_file-IsComplete}
use otus_app.Http.{Response, write_json, status_text}
use otus_app.Security.Tls.{
  Loader, config, tls_error, cert_file, ca_file, tls12, load_ca, server_with, server_tls, IsMutual,
  server_tls-IsMutual,
}
use otus_app.Text.{is_empty}
use otus_app.Security.Gate.{ParserOptions, auth_middleware, Admitted, auth_middleware-Admitted}

-- A namenode that still replicates at the first Close; the state counts the calls of Close.
abbrev writer : Writer ℕ
writer = record {
  remove = λ path w. w;
  create_file = λ path w. (none, w);
  copy = λ bytes w. ((length bytes, none), w);
  close = λ w. (if ltb 0 w then none else some 1, w + 1);
  is_replicating = λ e. e == 1;
}

abbrev runtime : Runtime ℕ ℕ
runtime = record {
  ctx_err = λ w. none;
  select = λ d w. (true, w);
  rand = λ w n. n - 1;
  retried = λ w. w;
  exhausted = λ w. w;
}

runtime-DoneHasError : DoneHasError runtime
runtime-DoneHasError d w h = absurd (ground arith)

put_file-IsComplete_example :
    (let s = put_file writer runtime (some (λ n. n)) (codes "a") (codes "hello") 0 in
      IsComplete writer runtime (codes "hello") s.0 s.1)
put_file-IsComplete_example =
    put_file-IsComplete writer runtime (some (λ n. n)) (codes "a") (codes "hello") 0
      runtime-DoneHasError

-- A single token is valid.
abbrev only_token : ParserOptions → Text → ℕ → Option ℕ × ℕ
only_token options raw w = (elim (text_eq raw (codes "t")) [ true ↦ none | false ↦ some 1 ], w)

abbrev serve : ℕ → Response × ℕ
serve w = (write_json [] 200 (status_text (codes "ok")), w + 1)

auth_middleware-Admitted_example :
    Admitted only_token [] serve
      (codes "Bearer t")
      3
      (auth_middleware only_token [] serve (codes "Bearer t") 3)
auth_middleware-Admitted_example = auth_middleware-Admitted only_token [] serve (codes "Bearer t") 3

-- Files of which only the one of the authorities can be read.
abbrev getenv : Text → Text
getenv name = name

abbrev loader : Loader Text Text
loader = record {
  load_pair = λ cert key. config cert;
  read_file = λ path. if text_eq path ca_file then config (codes "pem") else tls_error 2;
  parse_pool = λ pem. some pem;
}

server_tls-IsMutual_example : IsMutual loader ca_file (server_tls loader getenv)
server_tls-IsMutual_example = server_tls-IsMutual loader getenv (unfold is_empty in refl)

mutual_config :
    server_tls loader getenv
    ≡ config (
        some (record {
          certificate = some cert_file;
          min_version = tls12;
          client_cas = some (codes "pem");
          root_cas = none;
          verifies_clients = true;
        }))
unfolding server_tls server_with load_ca is_empty text_eq
mutual_config = refl
