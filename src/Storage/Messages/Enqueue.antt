-- ===== src/Storage/Messages/Enqueue.antt =====
-- What the loop over the targets adds to the outbox.
use otus_app.Base.{ℕ, ◌≡◌, true, some, List, [], ◌∷◌, arith, Option-cases, inl, inr}
use otus_app.Text.{Text, text_eq_refl, text_eq_iff}
use otus_app.Messaging.{ok}
use otus_app.Storage.Tables.{Task, find_task, is_some}
use otus_app.Storage.Messages.{Faults, insert_task, enqueue_all}

-- Each of the targets has a row for the message.
abbrev pub Queued : ℕ → List Text → List Task → Type 0
Queued id [] ts = Unit {0}
Queued id (t ∷ targets) ts = (is_some (find_task id t ts) ≡ true) × Queued id targets ts

-- Every row of the first table is in the second, unchanged.
abbrev pub Extends : List Task → List Task → Type 0
Extends ts ts' =
    (id : ℕ) (t : Text) (r : Task) → find_task id t ts ≡ some r → find_task id t ts' ≡ some r

insert_task-queued :
    (id : ℕ) (t payload : Text) (now : ℕ) (ts : List Task)
    → is_some (find_task id t (insert_task id t payload now ts)) ≡ true
unfolding insert_task find_task
insert_task-queued id t payload now ts = ground (arith, text_eq_refl t)

pub insert_task-Extends :
    (id : ℕ) (t payload : Text) (now : ℕ) (ts : List Task)
    → Extends ts (insert_task id t payload now ts)
unfolding insert_task find_task
insert_task-Extends id t payload now ts j u r h = ground (arith, text_eq_iff t u)

pub enqueue_all-Extends :
    (f : Faults) (id : ℕ) (payload : Text) (now : ℕ) (targets : List Text) (ts ts' : List Task)
    → enqueue_all f id payload now targets ts ≡ ok ts'
    → Extends ts ts'
unfolding enqueue_all
enqueue_all-Extends f id payload now [] ts ts' h j u r e = ground arith
enqueue_all-Extends f id payload now (t ∷ targets) ts ts' h j u r e =
    let next = insert_task id t payload now ts in
    enqueue_all-Extends f id payload now targets next ts' (ground arith) j u r
      (insert_task-Extends id t payload now ts j u r e)

is_some-Extends :
    (ts ts' : List Task) (id : ℕ) (t : Text)
    → Extends ts ts'
    → is_some (find_task id t ts) ≡ true
    → is_some (find_task id t ts') ≡ true
is_some-Extends ts ts' id t x h = elim (Option-cases (find_task id t ts)) [
  | inl e ↦ absurd (ground arith)
  | inr (r, e) ↦ rw (x id t r e)
]

pub Queued-Extends :
    (ts ts' : List Task) (id : ℕ) (targets : List Text)
    → Extends ts ts'
    → Queued id targets ts
    → Queued id targets ts'
Queued-Extends ts ts' id [] x q = tt
Queued-Extends ts ts' id (t ∷ targets) x q =
    (is_some-Extends ts ts' id t x q.0, Queued-Extends ts ts' id targets x q.1)

pub enqueue_all-Queued :
    (f : Faults) (id : ℕ) (payload : Text) (now : ℕ) (targets : List Text) (ts ts' : List Task)
    → enqueue_all f id payload now targets ts ≡ ok ts'
    → Queued id targets ts'
unfolding enqueue_all
enqueue_all-Queued f id payload now [] ts ts' h = tt
enqueue_all-Queued f id payload now (t ∷ targets) ts ts' h =
    let next = insert_task id t payload now ts in
    let rest : enqueue_all f id payload now targets next ≡ ok ts' = ground arith in
    (
      is_some-Extends next ts' id t (enqueue_all-Extends f id payload now targets next ts' rest)
          (insert_task-queued id t payload now ts),
      enqueue_all-Queued f id payload now targets next ts' rest,
    )
