-- ===== src/Storage/Outbox.antt =====
-- internal/storage/outbox.go: Claim, Complete, Retry and OutboxStats. Each is one statement, so one
-- step on the table; the row locks of Claim last for the statement only.
pub mod Rows
pub mod Leases
pub mod Histories
pub mod Exclusion
pub mod Loss
use otus_app.Base.{
  ℕ, ◌+◌, ◌-◌, ◌*◌, ◌/◌, Bool, true, false, ◌&&◌, ◌||◌, not, Option, none, some, List, [], ◌∷◌,
  ◌==◌, ltb, leb, if◌then◌else◌, min,
}
use otus_app.Resilience.Jitter.{millisecond}
use otus_app.Text.{Text, text_eq}
use otus_app.Messaging.{Error, lease_lost, other, Result, ok, err, MessageCreated}
use otus_app.Storage.Tables.{
  Task, Fate, done, refused, lost, Json, is_some, sql_eq, has_key, update_where, count_where,
}

-- outbox.Delivery
pub record Delivery : Type 0 where
  pub message_id : ℕ
  pub target : Text
  pub token : Text
  pub attempts : ℕ
  pub event : MessageCreated

-- A duration in whole milliseconds, as `lease.Milliseconds()` passes it to the statement.
abbrev pub whole_millis : ℕ → ℕ
whole_millis d = d / millisecond * millisecond

-- WHERE target=$1 AND delivered_at IS NULL AND available_at <= now()
unfoldable pub is_candidate : Text → ℕ → Task → Bool
is_candidate target now t =
    text_eq t.target target && not (is_some t.delivered_at) && leb t.available_at now

-- ORDER BY available_at, message_id
unfoldable pub comes_before : Task → Task → Bool
comes_before s t =
    ltb s.available_at t.available_at
    || s.available_at == t.available_at && ltb s.message_id t.message_id

unfoldable pub earlier : Task → Option Task → Task
earlier t none = t
earlier t (some s) = if comes_before s t then s else t

-- The candidate of the subquery: LIMIT 1.
unfoldable pub candidate : Text → ℕ → List Task → Option Task
unfolding is_candidate earlier comes_before
candidate target now [] = none
candidate target now (t ∷ ts) =
    let rest = candidate target now ts in
    if is_candidate target now t then some (earlier t rest) else rest

-- SET lease_token=$2, available_at=now()+…, attempts=o.attempts+1
unfoldable pub lease_task : Text → ℕ → ℕ → Task → Task
lease_task token now lease t = record t {
  lease_token = some token;
  available_at = now + whole_millis lease;
  attempts = t.attempts + 1;
}

abbrev pub decode_failed : Error
decode_failed = other 3

abbrev pub delivery_of : Task → Text → Option MessageCreated → Result (Option Delivery)
delivery_of t token none = err decode_failed
delivery_of t token (some ev) = ok (
    some (record {
      message_id = t.message_id;
      target = t.target;
      token = token;
      attempts = t.attempts;
      event = ev;
    }))

-- Postgres.Claim; the token is the answer of uuid.NewString. The row keeps its lease when its payload
-- does not decode.
unfoldable pub claim :
    Json → Fate → Text → Text → ℕ → ℕ → List Task → Result (Option Delivery) × List Task
unfolding candidate lease_task
claim json (refused e) target token now lease ts = (err e, ts)
claim json (lost e) target token now lease ts = elim (candidate target now ts) [
  | none ↦ (err e, ts)
  | some t ↦ (err e, update_where (has_key t.message_id t.target) (lease_task token now lease) ts)
]
claim json done target token now lease ts = elim (candidate target now ts) [
  | none ↦ (ok none, ts)
  | some t ↦
      let t' = lease_task token now lease t in
      (
        delivery_of t' token (json.unmarshal t'.payload),
        update_where (has_key t.message_id t.target) (lease_task token now lease) ts,
      )
]

-- WHERE message_id=$1 AND target=$2 AND lease_token=$3 AND delivered_at IS NULL
unfoldable pub holds_lease : Delivery → Task → Bool
holds_lease d t =
    has_key d.message_id d.target t
    && (sql_eq t.lease_token d.token && not (is_some t.delivered_at))

-- The error of an UPDATE that is to affect one row: `none` is nil.
unfoldable pub affected_one : ℕ → Option Error
affected_one n = if n == 1 then none else some lease_lost

unfoldable pub update_lease : Fate → (Task → Task) → Delivery → List Task → Option Error × List Task
unfolding affected_one
update_lease (refused e) set d ts = (some e, ts)
update_lease (lost e) set d ts = (some e, update_where (holds_lease d) set ts)
update_lease done set d ts =
    (affected_one (count_where (holds_lease d) ts), update_where (holds_lease d) set ts)

-- SET delivered_at=now(), lease_token=NULL
unfoldable pub mark_delivered : ℕ → Task → Task
mark_delivered now t = record t { delivered_at = some now; lease_token = none }

-- SET lease_token=NULL, available_at=now()+…
unfoldable pub postpone : ℕ → ℕ → Task → Task
postpone now delay t = record t { lease_token = none; available_at = now + whole_millis delay }

-- Postgres.Complete
unfoldable pub complete : Fate → ℕ → Delivery → List Task → Option Error × List Task
unfolding update_lease mark_delivered
complete fate now d ts = update_lease fate (mark_delivered now) d ts

-- Postgres.Retry
unfoldable pub retry : Fate → ℕ → ℕ → Delivery → List Task → Option Error × List Task
unfolding update_lease postpone
retry fate now delay d ts = update_lease fate (postpone now delay) d ts

-- outbox.Stats, with the age in nanoseconds where the statement gives seconds.
pub record Stats : Type 0 where
  pub pending : ℕ
  pub oldest : ℕ

abbrev pub is_pending : Text → Task → Bool
is_pending target t = text_eq t.target target && not (is_some t.delivered_at)

-- min(created_at) over the pending rows.
unfoldable pub oldest_pending : Text → List Task → Option ℕ
oldest_pending target [] = none
oldest_pending target (t ∷ ts) =
    let rest = oldest_pending target ts in
    if is_pending target t
    then some (elim rest [ none ↦ t.created_at | some c ↦ min t.created_at c ])
    else rest

-- Postgres.OutboxStats
unfoldable pub outbox_stats : Option Error → Text → ℕ → List Task → Result Stats
unfolding oldest_pending
outbox_stats (some e) target now ts = err e
outbox_stats none target now ts = ok (record {
  pending = count_where (is_pending target) ts;
  oldest = elim (oldest_pending target ts) [ none ↦ 0 | some c ↦ now - c ];
})
