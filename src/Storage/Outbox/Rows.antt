-- ===== src/Storage/Outbox/Rows.antt =====
-- Rows by their key: what an UPDATE and the candidate of Claim do to the row of a key.
use mathlib.Core.Option
use otus_app.Base.{
  ℕ, ◌≡◌, refl, sym, Bool, true, false, Option, none, some, List, [], ◌∷◌, arith, if◌then◌else◌,
  Bool-cases, Option-cases, inl, inr, ◌⊎◌,
}
use otus_app.Text.{Text, text_eq_refl, text_eq_iff}
use otus_app.Storage.Tables.{Task, find_task, has_key, update_where, count_where}
use otus_app.Storage.Outbox.{Delivery, is_candidate, candidate, holds_lease, comes_before, earlier}

-- No two rows have one key.
abbrev pub UniqueTasks : List Task → Type 0
UniqueTasks [] = Unit {0}
UniqueTasks (t ∷ ts) = (find_task t.message_id t.target ts ≡ none) × UniqueTasks ts

-- An assignment that leaves the key alone.
abbrev pub KeepsKey : (Task → Task) → Type 0
KeepsKey set = (t : Task) → ((set t).message_id ≡ t.message_id) × ((set t).target ≡ t.target)

pub find_task-update_where :
    (test : Task → Bool) (set : Task → Task) (id : ℕ) (target : Text) (ts : List Task)
    → KeepsKey set
    → find_task id target (update_where test set ts)
      ≡ Option.map (λ t. if test t then set t else t) (find_task id target ts)
unfolding find_task update_where
find_task-update_where test set id target [] k = refl
find_task-update_where test set id target (t ∷ ts) k =
    ground (arith, k t, find_task-update_where test set id target ts k)

pub update_where-UniqueTasks :
    (test : Task → Bool) (set : Task → Task) (ts : List Task)
    → KeepsKey set
    → UniqueTasks ts
    → UniqueTasks (update_where test set ts)
unfolding update_where
update_where-UniqueTasks test set [] k u = tt
update_where-UniqueTasks test set (t ∷ ts) k u = (
  ground (arith, k t, find_task-update_where test set t.message_id t.target ts k),
  update_where-UniqueTasks test set ts k u.1,
)

pub key_of_has_key :
    (id : ℕ) (target : Text) (t : Task)
    → has_key id target t ≡ true
    → (t.message_id ≡ id) × (t.target ≡ target)
key_of_has_key id target t h = ground (arith, text_eq_iff t.target target)

pub has_key_found :
    (id : ℕ) (target : Text) (ts : List Task) (t : Task)
    → find_task id target ts ≡ some t
    → has_key id target t ≡ true
unfolding find_task
has_key_found id target [] t h = absurd (cc)
has_key_found id target (x ∷ ts) t h = ground (arith, has_key_found id target ts t)

pub count_where_absent :
    (d : Delivery) (ts : List Task)
    → find_task d.message_id d.target ts ≡ none
    → count_where (holds_lease d) ts ≡ 0
unfolding count_where find_task holds_lease
count_where_absent d [] h = refl
count_where_absent d (t ∷ ts) h = ground (arith, count_where_absent d ts)

-- The UPDATE of Complete and Retry affects the row of its key, if that holds the lease.
pub count_where_found :
    (d : Delivery) (ts : List Task) (t : Task)
    → UniqueTasks ts
    → find_task d.message_id d.target ts ≡ some t
    → count_where (holds_lease d) ts ≡ (if holds_lease d t then 1 else 0)
unfolding count_where find_task holds_lease
count_where_found d [] t u h = absurd (cc)
count_where_found d (x ∷ ts) t u h = elim (Bool-cases (has_key d.message_id d.target x)) [
  | inl y ↦
      let same = key_of_has_key d.message_id d.target x y in
      let absent : find_task d.message_id d.target ts ≡ none = rw (← same.0, ← same.1) (u.0) in
      ground (arith, count_where_absent d ts absent)
  | inr n ↦ ground (arith, count_where_found d ts t u.1)
]

other_key :
    (x t : Task) (ts : List Task)
    → find_task x.message_id x.target ts ≡ none
    → find_task t.message_id t.target ts ≡ some t
    → has_key t.message_id t.target x ≡ false
other_key x t ts h k = elim (Bool-cases (has_key t.message_id t.target x)) [
  | inr n ↦ n
  | inl y ↦ let same = key_of_has_key t.message_id t.target x y in absurd (cc (same.0, same.1))
]

candidate_head :
    (target : Text) (now : ℕ) (x t : Task) (ts : List Task)
    → candidate target now (x ∷ ts) ≡ some t
    → ((t ≡ x) × (is_candidate target now x ≡ true)) ⊎ (candidate target now ts ≡ some t)
unfolding candidate earlier
candidate_head target now x t ts h = elim (Option-cases (candidate target now ts)) [
  | inl e ↦ ground arith
  | inr (s, e) ↦ ground arith
]

-- The candidate is a row of the table that may be claimed.
pub candidate_found :
    (target : Text) (now : ℕ) (ts : List Task) (t : Task)
    → UniqueTasks ts
    → candidate target now ts ≡ some t
    → (find_task t.message_id t.target ts ≡ some t) × (is_candidate target now t ≡ true)
unfolding candidate find_task
candidate_found target now [] t u h = absurd (cc)
candidate_found target now (x ∷ ts) t u h = elim (candidate_head target now x t ts h) [
  | inl (e, c) ↦ rw e (ground (arith, text_eq_refl x.target), c)
  | inr e ↦ let (f, c) = candidate_found target now ts t u.1 e in (rw (other_key x t ts u.0 f) f, c)
]

-- Of two candidates neither is lost: the one that is kept comes no later than the other.
earlier_first :
    (x y : Task) (o : Option Task)
    → ((o ≡ none) × (x ≡ y)) ⊎ ((s : Task) × (o ≡ some s) × ((x ≡ y) ⊎ (comes_before x s ≡ false)))
    → comes_before x (earlier y o) ≡ false
unfolding earlier comes_before
earlier_first x y o (inl (e, q)) = ground arith
earlier_first x y o (inr (s, e, inl q)) = ground arith
earlier_first x y o (inr (s, e, inr q)) = ground arith

-- There is a candidate whenever a row may be claimed, and that row does not come before it.
pub candidate_first :
    (target : Text) (now : ℕ) (ts : List Task) (id : ℕ) (tgt : Text) (x : Task)
    → find_task id tgt ts ≡ some x
    → is_candidate target now x ≡ true
    → (t : Task) × (candidate target now ts ≡ some t) × (comes_before x t ≡ false)
unfolding candidate find_task
candidate_first target now [] id tgt x h c = absurd (cc)
candidate_first target now (y ∷ ts) id tgt x h c = elim (Bool-cases (has_key id tgt y)) [
  | inl k ↦
      let e : y ≡ x = ground arith in
      let c' : is_candidate target now y ≡ true = rw e c in
      elim (Option-cases (candidate target now ts)) [
        | inl q ↦ rw (c', q) (earlier y none, refl, earlier_first x y none (inl (refl, sym e)))
        | inr (s, q) ↦
            rw (c', q)
              (earlier y (some s), refl, earlier_first x y (some s) (inr (s, refl, inl (sym e))))
      ]
  | inr n ↦
      let (s, q, b) = candidate_first target now ts id tgt x (ground arith) c in
      elim (Bool-cases (is_candidate target now y)) [
        | inl c' ↦
            rw (c', q) (earlier y (some s), refl, earlier_first x y (some s) (inr (s, refl, inr b)))
        | inr c' ↦ rw (c', q) (s, refl, b)
      ]
]
