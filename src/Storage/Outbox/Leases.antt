-- ===== src/Storage/Outbox/Leases.antt =====
-- What Claim does to the table of tasks.

use otus_app.Base.{
  ℕ, ◌+◌, ◌≤◌, ◌≡◌, ◌≢◌, refl, sym, Bool, true, false, none, some, List, [], ◌∷◌, arith, Bool-cases,
  Option-cases, inl, inr, ◌⊎◌, ◌∙◌,
}
use otus_app.Text.{Text, text_eq_refl, text_eq_iff}
use otus_app.Messaging.{ok}
use otus_app.Storage.Tables.{
  Task, Fate, done, refused, lost, Json, find_task, has_key, update_where, count_where,
}
use otus_app.Storage.Outbox.{
  Delivery, is_candidate, candidate, comes_before, claim, lease_task, mark_delivered, postpone,
}
use otus_app.Storage.Outbox.Rows.{
  UniqueTasks, KeepsKey, find_task-update_where, update_where-UniqueTasks, candidate_found,
  candidate_first, has_key_found, key_of_has_key,
}

pub lease_task-KeepsKey : (token : Text) (now lease : ℕ) → KeepsKey (lease_task token now lease)
unfolding lease_task
lease_task-KeepsKey token now lease t = (refl, refl)

pub mark_delivered-KeepsKey : (now : ℕ) → KeepsKey (mark_delivered now)
unfolding mark_delivered
mark_delivered-KeepsKey now t = (refl, refl)

pub postpone-KeepsKey : (now delay : ℕ) → KeepsKey (postpone now delay)
unfolding postpone
postpone-KeepsKey now delay t = (refl, refl)

-- What a claim that returns a delivery has done.
pub record Claimed (json : Json) (target token : Text) (now lease : ℕ) (ts ts' : List Task)
    (d : Delivery) (t : Task) : Type 0 where
  pub found : find_task d.message_id d.target ts ≡ some t
  pub right_target : d.target ≡ target
  pub undelivered : t.delivered_at ≡ none
  pub due : t.available_at ≤ now
  pub first :
      (id : ℕ) (x : Task)
      → find_task id target ts ≡ some x
      → is_candidate target now x ≡ true
      → comes_before x t ≡ false
  pub decoded : json.unmarshal t.payload ≡ some d.event
  pub token_kept : d.token ≡ token
  pub attempt : d.attempts ≡ t.attempts + 1
  pub leased : find_task d.message_id d.target ts' ≡ some (lease_task token now lease t)
  pub others :
      (id : ℕ) (tgt : Text)
      → (id ≢ d.message_id) ⊎ (tgt ≢ d.target)
      → find_task id tgt ts' ≡ find_task id tgt ts

leased_row :
    (token : Text) (now lease : ℕ) (ts : List Task) (t : Task)
    → find_task t.message_id t.target ts ≡ some t
    → find_task t.message_id t.target
        (update_where (has_key t.message_id t.target) (lease_task token now lease) ts)
      ≡ some (lease_task token now lease t)
leased_row token now lease ts t h =
    find_task-update_where (has_key t.message_id t.target) (lease_task token now lease) t.message_id
      t.target ts (lease_task-KeepsKey token now lease)
    ∙ rw h (ground (arith, text_eq_refl t.target))

other_rows :
    (set : Task → Task) (test : Task → Bool) (id i : ℕ) (target tgt : Text) (ts : List Task)
    → KeepsKey set
    → ((x : Task) → test x ≡ true → has_key i tgt x ≡ true)
    → (id ≢ i) ⊎ (target ≢ tgt)
    → find_task id target (update_where test set ts) ≡ find_task id target ts
other_rows set test id i target tgt ts k imp ne =
    find_task-update_where test set id target ts k ∙ elim (Option-cases (find_task id target ts)) [
      | inl e ↦ rw e
      | inr (x, e) ↦ elim (Bool-cases (test x)) [
        | inr n ↦ rw e (rw n)
        | inl y ↦
            let a = key_of_has_key i tgt x (imp x y) in
            let b = key_of_has_key id target x (has_key_found id target ts x e) in
            elim ne [ inl p ↦ absurd (p (sym b.0 ∙ a.0)) | inr p ↦ absurd (p (sym b.1 ∙ a.1)) ]
      ]
    ]

pub claim-Claimed :
    (json : Json) (target token : Text) (now lease : ℕ) (ts ts' : List Task) (d : Delivery)
    → UniqueTasks ts
    → claim json done target token now lease ts ≡ (ok (some d), ts')
    → (t : Task) × Claimed json target token now lease ts ts' d t
unfolding claim
claim-Claimed json target token now lease ts ts' d u h =
    elim (Option-cases (candidate target now ts)) [
      | inl e ↦ absurd (ground arith)
      | inr (t, e) ↦ elim (Option-cases (json.unmarshal t.payload)) [
        | inl q ↦ absurd (ground arith)
        | inr (ev, q) ↦
            let (f, c) = candidate_found target now ts t u e in
            (
              t,
              record {
                found = ground arith;
                right_target = ground (arith, text_eq_iff t.target target);
                undelivered = ground arith;
                due = ground arith;
                first = λ id x k g.
                    let (s, q, b) = candidate_first target now ts id target x k g in ground arith;
                decoded = ground arith;
                token_kept = ground arith;
                attempt = ground arith;
                leased = ground (arith, leased_row token now lease ts t f);
                others = λ id tgt n. ground (
                  arith,
                  other_rows (lease_task token now lease) (has_key t.message_id t.target) id
                      t.message_id tgt t.target ts (lease_task-KeepsKey token now lease) (λ y g. g),
                );
              },
            )
      ]
    ]

pub claim-UniqueTasks :
    (json : Json) (fate : Fate) (target token : Text) (now lease : ℕ) (ts : List Task)
    → UniqueTasks ts
    → UniqueTasks (claim json fate target token now lease ts).1
unfolding claim
claim-UniqueTasks json (refused e) target token now lease ts u = u
claim-UniqueTasks json (lost e) target token now lease ts u =
    elim (Option-cases (candidate target now ts)) [
      | inl q ↦ rw (q, claim) u
      | inr (t, q) ↦
          rw (q, claim)
            (update_where-UniqueTasks (has_key t.message_id t.target) (lease_task token now lease)
              ts (lease_task-KeepsKey token now lease) u)
    ]
claim-UniqueTasks json done target token now lease ts u =
    elim (Option-cases (candidate target now ts)) [
      | inl q ↦ rw (q, claim) u
      | inr (t, q) ↦
          rw (q, claim)
            (update_where-UniqueTasks (has_key t.message_id t.target) (lease_task token now lease)
              ts (lease_task-KeepsKey token now lease) u)
    ]

pub update_where_nothing :
    (test : Task → Bool) (set : Task → Task) (ts : List Task)
    → count_where test ts ≡ 0
    → update_where test set ts ≡ ts
unfolding update_where count_where
update_where_nothing test set [] h = refl
update_where_nothing test set (t ∷ ts) h = ground (arith, update_where_nothing test set ts)
