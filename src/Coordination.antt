-- ===== src/Coordination.antt =====
-- internal/coord/coord.go: WithLock, applyInt, fetchInt and WatchInt. The client of etcd and its lock are
-- arguments.
pub mod Watching
use otus_app.Base.{
  ℕ, ◌+◌, Bool, true, false, List, [], ◌∷◌, Option, none, some, ltb, if◌then◌else◌, max,
}
use otus_app.Base.Int.{ℤ}
use otus_app.Text.{Text}
use otus_app.Text.Trim.{trim_space}
use otus_app.Text.Decimal.{parse_int}

-- What the lock saw: sessions opened and closed, and the lock taken and given back.
pub data Action : Type 0 where
  session_opened session_closed locked unlocked ran : Action

-- The answers of etcd: whether NewSession, Lock and Unlock fail.
pub record Answers : Type 0 where
  pub session : Option ℕ
  pub lock : Option ℕ
  pub unlock : Option ℕ

module _ {W : Type 0} where
  abbrev pub note : Action → W × List Action → W × List Action
  note a (w, log) = (w, a ∷ log)

  -- fn, with its place in the log.
  unfoldable pub run_fn : (W → Option ℕ × W) → W × List Action → Option ℕ × (W × List Action)
  run_fn fn (w, log) = let r = fn w in (r.0, (r.1, ran ∷ log))

  -- The deferred Unlock, whose error is only logged.
  abbrev pub unlock_after : Option ℕ → Option ℕ × (W × List Action) → Option ℕ × (W × List Action)
  unlock_after none (e, s) = (e, note unlocked s)
  unlock_after (some n) (e, s) = (e, s)

  abbrev pub close_after : Option ℕ × (W × List Action) → Option ℕ × (W × List Action)
  close_after (e, s) = (e, note session_closed s)

  -- From Lock on.
  unfoldable pub locked_call :
      Option ℕ → Option ℕ → (W → Option ℕ × W) → W × List Action → Option ℕ × (W × List Action)
  locked_call (some e) unlock fn s = (some e, s)
  locked_call none unlock fn s = unlock_after unlock (run_fn fn (note locked s))

  unfoldable pub with_session :
      Answers → Option ℕ → (W → Option ℕ × W) → W × List Action → Option ℕ × (W × List Action)
  with_session a (some e) fn s = run_fn fn s
  with_session a none fn s = close_after (locked_call a.lock a.unlock fn (note session_opened s))

  -- WithLock; no answers are the nil receiver.
  unfoldable pub with_lock :
      Option Answers → (W → Option ℕ × W) → W × List Action → Option ℕ × (W × List Action)
  with_lock none fn s = run_fn fn s
  with_lock (some a) fn s = with_session a a.session fn s

-- applyInt: what apply was called with, latest first.
unfoldable pub apply_parsed : Option ℤ → List ℤ → List ℤ
apply_parsed none applied = applied
apply_parsed (some n) applied = n ∷ applied

unfoldable pub apply_int : Text → List ℤ → List ℤ
apply_int raw applied = apply_parsed (parse_int (trim_space raw)) applied

-- An event of the key, and a response of Watch: an error, or events with the revision of the header.
pub data KeyEvent : Type 0 where
  put : Text → KeyEvent
  removed : KeyEvent

pub data WatchResponse : Type 0 where
  watch_failed : WatchResponse
  events : List KeyEvent → ℕ → WatchResponse

-- The answer of Get: an error, or the value if the key is there with the revision of the header.
pub data GetResponse : Type 0 where
  get_failed : GetResponse
  current : Option Text → ℕ → GetResponse

-- The variable rev, what was applied, and the revisions from which Watch was asked, latest first.
pub record Watcher : Type 0 where
  pub rev : ℕ
  pub applied : List ℤ
  pub asked : List (Option ℕ)

unfoldable pub apply_current : Option Text → List ℤ → List ℤ
apply_current none applied = applied
apply_current (some raw) applied = apply_int raw applied

-- fetchInt, with the assignment to rev.
unfoldable pub fetch_int : GetResponse → Watcher → Watcher
fetch_int get_failed s = record s { rev = 0 }
fetch_int (current v rev) s = record s { rev = rev; applied = apply_current v s.applied }

unfoldable pub apply_events : List KeyEvent → List ℤ → List ℤ
apply_events [] applied = applied
apply_events (put raw ∷ es) applied = apply_events es (apply_int raw applied)
apply_events (removed ∷ es) applied = apply_events es applied

unfoldable pub receive_response : WatchResponse → Watcher → Watcher
receive_response watch_failed s = s
receive_response (events es rev) s = record s {
  rev = if ltb s.rev rev then rev else s.rev;
  applied = apply_events es s.applied;
}

-- The loop over one Watch.
unfoldable pub receive_all : List WatchResponse → Watcher → Watcher
receive_all [] s = s
receive_all (r ∷ rs) s = receive_all rs (receive_response r s)

unfoldable pub ask_watch : Watcher → Watcher
ask_watch s = record s { asked = (if ltb 0 s.rev then some (s.rev + 1) else none) ∷ s.asked }

-- A round of the goroutine: the responses of a Watch, then, unless the context is done, a new fetch.
pub record WatchRound : Type 0 where
  pub responses : List WatchResponse
  pub refetch : Option GetResponse

abbrev pub refetched : Option GetResponse → (Watcher → Watcher) → Watcher → Watcher
refetched none continue s = s
refetched (some g) continue s = continue (fetch_int g s)

unfoldable pub watch_rounds : List WatchRound → Watcher → Watcher
watch_rounds [] s = s
watch_rounds (r ∷ rs) s =
    refetched r.refetch (λ s'. watch_rounds rs s') (receive_all r.responses (ask_watch s))

-- WatchInt
unfoldable pub watch_int : GetResponse → List WatchRound → Watcher
watch_int first rounds =
    watch_rounds rounds (fetch_int first (record { rev = 0; applied = []; asked = [] }))
