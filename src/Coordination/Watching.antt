-- ===== src/Coordination/Watching.antt =====
-- What WatchInt applied last is the value of the key at the revision that it has reached.
use otus_app.Base.{ℕ, ◌-◌, ◌<◌, ◌≤◌, ◌≡◌, List, [], ◌∷◌, Option, none, some}
use otus_app.Base.Int.{ℤ}
use otus_app.Text.{Text}
use otus_app.Text.Trim.{trim_space}
use otus_app.Text.Decimal.{parse_int}
use otus_app.Coordination.{
  KeyEvent, put, removed, WatchResponse, watch_failed, events, GetResponse, get_failed, current,
  Watcher, fetch_int, receive_all, ask_watch, WatchRound,
}

abbrev pub latest : List ℤ → Option ℤ
latest [] = none
latest (n ∷ ns) = some n

-- If this is the value of the key and it is a number, that number was applied last.
abbrev pub IsApplied : Option Text → List ℤ → Type 0
IsApplied o applied =
    (raw : Text) (n : ℤ)
    → o ≡ some raw
    → parse_int (trim_space raw) ≡ some n
    → latest applied ≡ some n

-- The value of a key after these events.
unfoldable pub value_after : List KeyEvent → Option Text → Option Text
value_after [] o = o
value_after (put raw ∷ es) o = value_after es (some raw)
value_after (removed ∷ es) o = value_after es none

-- The documented behaviour of etcd for a key with this value at each revision: Get answers with the value at
-- the revision of its header, which is positive; a Watch with WithRev reports all events from that revision on,
-- and a Watch without it the events after the revision at which etcd takes it up, whichever that is.
module _ (value_at : ℕ → Option Text) where
  unfoldable pub IsCurrentGet : GetResponse → Type 0
  IsCurrentGet get_failed = ⊥
  IsCurrentGet (current v rev) = (0 < rev) × (v ≡ value_at rev)

  unfoldable pub AreComplete : ℕ → List WatchResponse → Type 0
  AreComplete rev [] = Unit {0}
  AreComplete rev (watch_failed ∷ rs) = AreComplete rev rs
  AreComplete rev (events es next ∷ rs) =
      (rev ≤ next) × (value_at next ≡ value_after es (value_at rev)) × AreComplete next rs

  -- The responses to a Watch that was asked with or without a revision.
  unfoldable pub Serves : Option ℕ → List WatchResponse → Type 0
  Serves none rs = (start : ℕ) × AreComplete start rs
  Serves (some k) rs = 0 < k → AreComplete (k - 1) rs

  abbrev pub last_asked : Watcher → Option ℕ
  last_asked s = head_asked s.asked
    where
      head_asked : List (Option ℕ) → Option ℕ
      head_asked [] = none
      head_asked (o ∷ os) = o

  abbrev pub GoesOnFrom : Option GetResponse → (GetResponse → Type 0) → Type 0
  GoesOnFrom none Rest = Unit {0}
  GoesOnFrom (some g) Rest = IsCurrentGet g × Rest g

  -- The rounds of a watcher, each with the responses to what this watcher asks.
  unfoldable pub IsFaithful : Watcher → List WatchRound → Type 0
  IsFaithful s [] = Unit {0}
  IsFaithful s (r ∷ rs) =
      Serves (last_asked (ask_watch s)) r.responses
      × GoesOnFrom r.refetch
          (λ g. IsFaithful (fetch_int g (receive_all r.responses (ask_watch s))) rs)

  abbrev pub IsUpToDate : Watcher → Type 0
  IsUpToDate s = IsApplied (value_at s.rev) s.applied

  -- Before the first Get.
  abbrev pub idle : Watcher
  idle = record { rev = 0; applied = []; asked = [] }
