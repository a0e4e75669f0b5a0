-- ===== src/Storage/Outbox/Histories.antt =====
-- Sequences of statements on the table of tasks, by any processes: how long a lease keeps others away, and
-- what is left to a worker that has lost its lease.
use otus_app.Base.{
  ℕ, ◌≡◌, refl, sym, Bool, true, some, List, [], ◌∷◌, Bool-cases, Option-cases, inl, inr, ◌⊎◌, ◌∙◌,
}
use otus_app.Text.{Text}
use otus_app.Storage.Tables.{
  Task, Fate, done, refused, lost, Json, find_task, has_key, update_where,
}
use otus_app.Storage.Messages.{insert_task}
use otus_app.Storage.Outbox.{
  Delivery, is_candidate, candidate, holds_lease, claim, complete, retry, update_lease, lease_task,
  mark_delivered, postpone,
}
use otus_app.Storage.Outbox.Rows.{
  UniqueTasks, KeepsKey, find_task-update_where, update_where-UniqueTasks, candidate_found,
  has_key_found, key_of_has_key,
}
use otus_app.Storage.Outbox.Leases.{
  claim-UniqueTasks, lease_task-KeepsKey, mark_delivered-KeepsKey, postpone-KeepsKey,
}

-- The row of a key is there and has a property.
abbrev pub HasRow : ℕ → Text → (Task → Type 0) → List Task → Type 0
HasRow id target P ts = (x : Task) × (find_task id target ts ≡ some x) × P x

-- A statement on the table: of a relay, or the INSERT of Create.
pub data Statement : Type 0 where
  claims : Fate → Text → Text → ℕ → ℕ → Statement
  completes : Fate → ℕ → Delivery → Statement
  retries : Fate → ℕ → ℕ → Delivery → Statement
  inserts : ℕ → Text → Text → ℕ → Statement

module _ (json : Json) where
  unfoldable pub execute : Statement → List Task → List Task
  execute (claims fate target token now lease) ts = (claim json fate target token now lease ts).1
  execute (completes fate now d) ts = (complete fate now d ts).1
  execute (retries fate now delay d) ts = (retry fate now delay d ts).1
  execute (inserts id target payload now) ts = insert_task id target payload now ts

  unfoldable pub execute_all : List Statement → List Task → List Task
  execute_all [] ts = ts
  execute_all (s ∷ ss) ts = execute_all ss (execute s ts)

update_lease-UniqueTasks :
    (fate : Fate) (set : Task → Task) (d : Delivery) (ts : List Task)
    → KeepsKey set
    → UniqueTasks ts
    → UniqueTasks (update_lease fate set d ts).1
unfolding update_lease
update_lease-UniqueTasks (refused e) set d ts k u = u
update_lease-UniqueTasks (lost e) set d ts k u = update_where-UniqueTasks (holds_lease d) set ts k u
update_lease-UniqueTasks done set d ts k u = update_where-UniqueTasks (holds_lease d) set ts k u

insert_task-UniqueTasks :
    (id : ℕ) (target payload : Text) (now : ℕ) (ts : List Task)
    → UniqueTasks ts
    → UniqueTasks (insert_task id target payload now ts)
unfolding insert_task
insert_task-UniqueTasks id target payload now ts u = elim (Option-cases (find_task id target ts)) [
  | inl e ↦ rw e (e, u)
  | inr (x, e) ↦ rw e u
]

pub execute-UniqueTasks :
    (json : Json) (s : Statement) (ts : List Task)
    → UniqueTasks ts
    → UniqueTasks (execute json s ts)
unfolding execute complete retry
execute-UniqueTasks json (claims fate target token now lease) ts u =
    claim-UniqueTasks json fate target token now lease ts u
execute-UniqueTasks json (completes fate now d) ts u =
    update_lease-UniqueTasks fate (mark_delivered now) d ts (mark_delivered-KeepsKey now) u
execute-UniqueTasks json (retries fate now delay d) ts u =
    update_lease-UniqueTasks fate (postpone now delay) d ts (postpone-KeepsKey now delay) u
execute-UniqueTasks json (inserts id target payload now) ts u =
    insert_task-UniqueTasks id target payload now ts u

-- What a statement makes of a row.
module _ (id : ℕ) (target : Text) where
  -- The row is as before, or was set because it passed a test.
  abbrev pub SetIf : List Task → Task → (Task → Task) → Bool → Type 0
  SetIf ts' x set b =
      (find_task id target ts' ≡ some x) ⊎ ((find_task id target ts' ≡ some (set x)) × (b ≡ true))

  update_where-SetIf :
      (test : Task → Bool) (set : Task → Task) (ts : List Task) (x : Task)
      → KeepsKey set
      → find_task id target ts ≡ some x
      → SetIf (update_where test set ts) x set (test x)
  update_where-SetIf test set ts x k f =
      let g = find_task-update_where test set id target ts k in
      elim (Bool-cases (test x)) [
        | inl y ↦ inr (g ∙ rw f (rw y refl), y)
        | inr n ↦ inl (g ∙ rw f (rw n refl))
      ]

  pub update_lease-SetIf :
      (fate : Fate) (set : Task → Task) (d : Delivery) (ts : List Task) (x : Task)
      → KeepsKey set
      → find_task id target ts ≡ some x
      → SetIf (update_lease fate set d ts).1 x set (holds_lease d x)
  unfolding update_lease
  update_lease-SetIf (refused e) set d ts x k f = inl f
  update_lease-SetIf (lost e) set d ts x k f = update_where-SetIf (holds_lease d) set ts x k f
  update_lease-SetIf done set d ts x k f = update_where-SetIf (holds_lease d) set ts x k f

  -- The leased row is the candidate of the claim.
  leased-SetIf :
      (tgt token : Text) (now lease : ℕ) (ts : List Task) (t x : Task)
      → UniqueTasks ts
      → candidate tgt now ts ≡ some t
      → find_task id target ts ≡ some x
      → SetIf
          (update_where (has_key t.message_id t.target) (lease_task token now lease) ts)
          x
          (lease_task token now lease)
          (is_candidate tgt now x)
  leased-SetIf tgt token now lease ts t x u q f =
      let (g, c) = candidate_found tgt now ts t u q in
      elim (update_where-SetIf (has_key t.message_id t.target) (lease_task token now lease) ts x
        (lease_task-KeepsKey token now lease) f) [
          | inl e ↦ inl e
          | inr (e, y) ↦
              let (i, j) = key_of_has_key t.message_id t.target x y in
              let (i', j') = key_of_has_key id target x (has_key_found id target ts x f) in
              inr (e, rw (same_task ts t x (sym i ∙ i') (sym j ∙ j') g f) at c)
        ]
    where
      same_task :
          (ts : List Task) (t x : Task)
          → t.message_id ≡ id
          → t.target ≡ target
          → find_task t.message_id t.target ts ≡ some t
          → find_task id target ts ≡ some x
          → t ≡ x
      same_task ts t x p q f g = cc

  pub claim-SetIf :
      (json : Json) (fate : Fate) (tgt token : Text) (now lease : ℕ) (ts : List Task) (x : Task)
      → UniqueTasks ts
      → find_task id target ts ≡ some x
      → SetIf
          (claim json fate tgt token now lease ts).1
          x
          (lease_task token now lease)
          (is_candidate tgt now x)
  unfolding claim
  claim-SetIf json (refused e) tgt token now lease ts x u f = inl f
  claim-SetIf json (lost e) tgt token now lease ts x u f =
      elim (Option-cases (candidate tgt now ts)) [
        | inl q ↦ rw (q, claim) (inl f)
        | inr (t, q) ↦ rw (q, claim) (leased-SetIf tgt token now lease ts t x u q f)
      ]
  claim-SetIf json done tgt token now lease ts x u f = elim (Option-cases (candidate tgt now ts)) [
    | inl q ↦ rw (q, claim) (inl f)
    | inr (t, q) ↦ rw (q, claim) (leased-SetIf tgt token now lease ts t x u q f)
  ]
