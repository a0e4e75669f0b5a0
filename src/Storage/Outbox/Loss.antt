-- ===== src/Storage/Outbox/Loss.antt =====
-- A worker that has lost its lease changes nothing, whatever came after.
use otus_app.Base.{ℕ, ◌≡◌, ◌≢◌, refl, subst, false, some, List, [], ◌∷◌, arith, inl, inr, ◌∙◌}
use otus_app.Text.{Text, text_eq_iff}
use otus_app.Messaging.{ok, lease_lost}
use otus_app.Storage.Tables.{Task, done, Json, find_task, sql_eq, count_where}
use otus_app.Storage.Messages.Enqueue.{insert_task-Extends}
use otus_app.Storage.Outbox.{
  Delivery, holds_lease, claim, complete, retry, lease_task, mark_delivered, postpone,
}
use otus_app.Storage.Outbox.Rows.{UniqueTasks, count_where_found}
use otus_app.Storage.Outbox.Leases.{
  claim-Claimed, claim-UniqueTasks, mark_delivered-KeepsKey, postpone-KeepsKey,
  update_where_nothing,
}
use otus_app.Storage.Outbox.Histories.{
  HasRow, Statement, claims, completes, retries, inserts, execute, execute_all, execute-UniqueTasks,
  claim-SetIf, update_lease-SetIf,
}

-- A statement that does not lease the row to this token again: no claim draws a token a second time.
abbrev IsOther : Text → Statement → Type 0
IsOther token (claims fate target token' now lease) = token' ≢ token
IsOther token (completes fate now d) = Unit {0}
IsOther token (retries fate now delay d) = Unit {0}
IsOther token (inserts id target payload now) = Unit {0}

unfoldable pub AreOthers : Text → List Statement → Type 0
AreOthers token [] = Unit {0}
AreOthers token (s ∷ ss) = IsOther token s × AreOthers token ss

-- The row is leased to nobody or to another token.
abbrev IsLost : Text → Task → Type 0
IsLost token x = sql_eq x.lease_token token ≡ false

lease_task-IsLost :
    (token token' : Text) (now lease : ℕ) (x : Task)
    → token' ≢ token
    → IsLost token (lease_task token' now lease x)
unfolding lease_task
lease_task-IsLost token token' now lease x ne = ground (arith, text_eq_iff token' token)

module _ (json : Json) (id : ℕ) (target token : Text) where
  execute-IsLost :
      (s : Statement) (ts : List Task)
      → UniqueTasks ts
      → IsOther token s
      → HasRow id target (IsLost token) ts
      → HasRow id target (IsLost token) (execute json s ts)
  unfolding execute complete retry
  execute-IsLost (claims fate tgt token' now lease) ts u ne (x, f, l) =
      elim (claim-SetIf id target json fate tgt token' now lease ts x u f) [
        | inl g ↦ (x, g, l)
        | inr (g, c) ↦
            (lease_task token' now lease x, g, lease_task-IsLost token token' now lease x ne)
      ]
  execute-IsLost (completes fate now d) ts u o (x, f, l) =
      elim (update_lease-SetIf id target fate (mark_delivered now) d ts x
        (mark_delivered-KeepsKey now) f) [
          | inl g ↦ (x, g, l)
          | inr (g, b) ↦ (mark_delivered now x, g, unfold mark_delivered in refl)
        ]
  execute-IsLost (retries fate now delay d) ts u o (x, f, l) =
      elim (update_lease-SetIf id target fate (postpone now delay) d ts x
        (postpone-KeepsKey now delay) f) [
          | inl g ↦ (x, g, l)
          | inr (g, b) ↦ (postpone now delay x, g, unfold postpone in refl)
        ]
  execute-IsLost (inserts i tgt payload now) ts u o (x, f, l) =
      (x, insert_task-Extends i tgt payload now ts id target x f, l)

  execute_all-IsLost :
      (ss : List Statement) (ts : List Task)
      → UniqueTasks ts
      → AreOthers token ss
      → HasRow id target (IsLost token) ts
      → UniqueTasks (execute_all json ss ts)
        × HasRow id target (IsLost token) (execute_all json ss ts)
  unfolding execute_all AreOthers
  execute_all-IsLost [] ts u o h = (u, h)
  execute_all-IsLost (s ∷ ss) ts u (f, o) h =
      execute_all-IsLost ss (execute json s ts) (execute-UniqueTasks json s ts u) o
        (execute-IsLost s ts u f h)

lost_refused :
    (end delay : ℕ) (d : Delivery) (ts : List Task)
    → UniqueTasks ts
    → HasRow d.message_id d.target (IsLost d.token) ts
    → (complete done end d ts ≡ (some lease_lost, ts))
      × (retry done end delay d ts ≡ (some lease_lost, ts))
unfolding complete retry
lost_refused end delay d ts u (x, f, l) = (
  ground (arith, none_held, update_where_nothing (holds_lease d) (mark_delivered end) ts),
  ground (arith, none_held, update_where_nothing (holds_lease d) (postpone end delay) ts),
)
  where
    none_held : count_where (holds_lease d) ts ≡ 0
    none_held = count_where_found d ts x u f ∙ unfold holds_lease in ground arith

-- Once a task was claimed, on a table whose keys are unique, with another token than that of a
-- delivery, and after any further statements that do not draw the delivery's token again (claims,
-- Complete and Retry of any deliveries, with any fates, insertions of tasks), Complete and Retry
-- of the delivery are answered with ErrLeaseLost and leave the table as it is.
pub stale_refused :
    (json : Json) (token' : Text) (now' lease' end delay : ℕ) (ts ts₁ : List Task) (d d' : Delivery)
    (ss : List Statement)
    → UniqueTasks ts
    → claim json done d.target token' now' lease' ts ≡ (ok (some d'), ts₁)
    → d'.message_id ≡ d.message_id
    → token' ≢ d.token
    → AreOthers d.token ss
    → let ts₂ = execute_all json ss ts₁ in
      (complete done end d ts₂ ≡ (some lease_lost, ts₂))
      × (retry done end delay d ts₂ ≡ (some lease_lost, ts₂))
stale_refused json token' now' lease' end delay ts ts₁ d d' ss u k same ne o =
    let (t, c) = claim-Claimed json d.target token' now' lease' ts ts₁ d' u k in
    let u₁ : UniqueTasks ts₁ =
      subst (λ r. UniqueTasks r.1) k
        (claim-UniqueTasks json done d.target token' now' lease' ts u) in
    let f : find_task d.message_id d.target ts₁ ≡ some (lease_task token' now' lease' t) =
      rw (same, c.right_target) at c.leased in
    let (u₂, h) =
      execute_all-IsLost json d.message_id d.target d.token ss ts₁ u₁ o
        (lease_task token' now' lease' t, f, lease_task-IsLost d.token token' now' lease' t ne) in
    lost_refused end delay d (execute_all json ss ts₁) u₂ h
