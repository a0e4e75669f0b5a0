-- ===== src/ChaosProxy.antt =====
-- cmd/chaosproxy/main.go: the faults, their control, and ServeHTTP. The rates are of an ordered type F,
-- since the language has no floats; the app, the random numbers and the reading of bodies are arguments.
pub mod Throttle
pub mod Repeat
use otus_app.Base.{
  ℕ, zero, suc, ◌+◌, ◌*◌, ◌/◌, ◌≡◌, Bool, true, false, ◌&&◌, ◌||◌, not, List, [], ◌∷◌, ◌++◌, Option,
  none, some, length, ltb, max, take, drop, if◌then◌else◌,
}
use otus_app.Base.Int.{ℤ, pos, negsuc, pos_part, ltb_ℤ}
use otus_app.Text.{Text, codes, text_eq}
use otus_app.Text.Headers.{Header}
use otus_app.Http.{Response, Body, error_response}
use otus_app.Gateway.{Outgoing}

pub record Faults (F : Type 0) : Type 0 where
  pub delay_ms : ℤ
  pub repeat : Bool
  pub drop_rate : F
  pub throttle_bps : ℤ

-- The counters of traffic, of requests and of injected faults.
pub record Metrics : Type 0 where
  pub to_app : ℕ
  pub from_app : ℕ
  pub dropped : ℕ
  pub failed : ℕ
  pub passed : ℕ
  pub drops : ℕ
  pub delays : ℕ
  pub repeats : ℕ
  pub throttles : ℕ

-- What the proxy answers with: its own error, or the app's answer with what was written of its body.
pub data Served : Type 0 where
  own : Response → Served
  passed_on : Response → Text → Served

-- An answer of the app with the bytes of its body.
pub record Reply : Type 0 where
  pub response : Response
  pub bytes : Text

-- The chunks of copyThrottled.
unfoldable pub chunk_size : ℤ → ℕ
chunk_size bps = max 1 (pos_part bps / 10)

-- One Write: all of the chunk, or a first part of it before an error.
unfoldable pub write_chunk : Option ℕ → Text → List Text → List Text
write_chunk (some k) c rest = take k c ∷ []
write_chunk none c rest = c ∷ rest

-- The loop of copyThrottled: Read gives a chunk at a time, Write of the n-th chunk takes this many bytes
-- and fails or not. The result is what was written, in chunks. The fuel is the length of the body.
unfoldable pub copy_chunks : (ℕ → Option ℕ) → ℕ → ℕ → ℕ → Text → List Text
copy_chunks broken chunk zero n bytes = []
copy_chunks broken chunk (suc f) n [] = []
copy_chunks broken chunk (suc f) n (b ∷ bs) =
    write_chunk (broken n) (take chunk (b ∷ bs))
      (copy_chunks broken chunk f (n + 1) (drop chunk (b ∷ bs)))

abbrev pub join_chunks : List Text → Text
join_chunks [] = []
join_chunks (c ∷ cs) = c ++ join_chunks cs

unfoldable pub copy_throttled : (ℕ → Option ℕ) → ℤ → Text → Text
copy_throttled broken bps bytes =
    join_chunks (copy_chunks broken (chunk_size bps) (length bytes) 0 bytes)

abbrev pub count_if : Bool → ℕ → ℕ
count_if b n = if b then n + 1 else n

-- io.LimitReader(r.Body, 1<<20)
abbrev pub body_limit : ℕ
body_limit = 1048576

abbrev pub repeats_request : {F : Type 0} → Faults F → Text → Bool
repeats_request f method = f.repeat && not (text_eq method (codes "GET"))

module _ {W : Type 0} where
  -- One attempt: an error of client.Do ends the loop, and all answers but the last are read and thrown
  -- away.
  unfoldable pub after_attempt :
      ℕ
      → Metrics
      → Option Reply × W
      → (Metrics → W → Option Reply × (Metrics × W))
      → Option Reply × (Metrics × W)
  after_attempt more m (none, w) continue = (none, (record m { failed = m.failed + 1 }, w))
  after_attempt zero m (some r, w) continue = (some r, (m, w))
  after_attempt (suc more) m (some r, w) continue =
      continue (record m { from_app = m.from_app + length r.bytes }) w

  -- The loop over the attempts; there is at least one.
  unfoldable pub run_attempts :
      (Outgoing → W → Option Reply × W) → Outgoing → ℕ → Metrics → W → Option Reply × (Metrics × W)
  run_attempts app req zero m w = (none, (m, w))
  run_attempts app req (suc more) m w =
      after_attempt more m (app req w) (λ m' w'. run_attempts app req more m' w')

  -- What is written of the body of the answer, and the counters.
  unfoldable pub pass_on :
      {F : Type 0}
      → (ℕ → Option ℕ)
      → Faults F
      → Option Reply × (Metrics × W)
      → Served × (Metrics × W)
  pass_on broken f (none, (m, w)) = (own (error_response 502 (codes "app недоступен")), (m, w))
  pass_on broken f (some r, (m, w)) =
      let slow = ltb_ℤ (pos 0) f.throttle_bps in
      let written = if slow then copy_throttled broken f.throttle_bps r.bytes else r.bytes in
      (
        passed_on r.response written,
        (
          record m {
            throttles = count_if slow m.throttles;
            from_app = m.from_app + length written;
            passed = m.passed + 1;
          },
          w,
        ),
      )

  -- From the read body on.
  unfoldable pub serve_body :
      {F : Type 0}
      → (ℕ → Option ℕ)
      → Faults F
      → (Outgoing → W → Option Reply × W)
      → Outgoing
      → Metrics
      → W
      → Served × (Metrics × W)
  serve_body broken f app req m w =
      let twice = repeats_request f req.method in
      pass_on broken f (
        run_attempts app req (if twice then 2 else 1)
          (record m { to_app = m.to_app + length req.body; repeats = count_if twice m.repeats }) w)

  abbrev pub read_body :
      {F : Type 0}
      → (ℕ → Option ℕ)
      → Faults F
      → (Outgoing → W → Option Reply × W)
      → Text
      → Header
      → Option Text
      → Metrics
      → W
      → Served × (Metrics × W)
  read_body broken f app method header none m w =
      (own (error_response 400 (codes "не удалось прочитать тело запроса")), (m, w))
  read_body broken f app method header (some body) m w =
      serve_body broken f app
        (record { method = method; header = header; body = take body_limit body }) m w

  module _ {F : Type 0} (lt : F → F → Bool) (zero_rate : F) where
    -- ServeHTTP; `rand` is rand.Float64, `body` what ReadAll gives, and `broken` the failing writes.
    unfoldable pub serve_http :
        F
        → (ℕ → Option ℕ)
        → Faults F
        → (Outgoing → W → Option Reply × W)
        → Text
        → Header
        → Option Text
        → Metrics
        → W
        → Served × (Metrics × W)
    serve_http rand broken f app method header body m w =
        if lt zero_rate f.drop_rate && lt rand f.drop_rate
        then (
          own (error_response 502 (codes "запрос оборван прокси")),
          (record m { drops = m.drops + 1; dropped = m.dropped + 1 }, w),
        )
        else read_body broken f app method header body
            (record m { delays = count_if (ltb_ℤ (pos 0) f.delay_ms) m.delays }) w

module _ {F : Type 0} (lt : F → F → Bool) (zero_rate one_rate : F) where
  unfoldable pub is_bad : Faults F → Bool
  is_bad f =
      ltb_ℤ f.delay_ms (pos 0)
      || ltb_ℤ f.throttle_bps (pos 0)
      || lt f.drop_rate zero_rate
      || lt one_rate f.drop_rate

  -- controlSet; the Option is the decoded body. The answer shows the new faults.
  unfoldable pub control_set : Option (Faults F) → Faults F → Option (Faults F) × Faults F
  control_set none f = (none, f)
  control_set (some g) f = if is_bad g then (none, f) else (some g, g)
