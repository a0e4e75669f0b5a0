-- ===== src/Outbox/Steps.antt =====
-- What each statement on the table of tasks leaves, whichever process makes it.
use otus_app.Base.{
  ℕ, ◌≡◌, ◌≢◌, refl, sym, Bool, true, false, none, some, List, [], ◌∷◌, arith, if◌then◌else◌,
  Bool-cases, Option-cases, inl, inr, ◌⊎◌, ap, ◌∙◌,
}
use otus_app.Text.{Text}
use otus_app.Messaging.{MessageCreated}
use otus_app.Storage.Tables.{
  Task, Fate, done, refused, lost, Json, find_task, has_key, update_where,
}
use otus_app.Storage.Outbox.{
  Delivery, holds_lease, claim, complete, retry, lease_task, mark_delivered, postpone, candidate,
}
use otus_app.Storage.Outbox.Rows.{
  UniqueTasks, KeepsKey, find_task-update_where, update_where-UniqueTasks, has_key_found,
  key_of_has_key,
}
use otus_app.Storage.Outbox.Leases.{lease_task-KeepsKey, mark_delivered-KeepsKey, postpone-KeepsKey}
use otus_app.Outbox.{World}

abbrev pub Member : {A : Type 0} → A → List A → Type 0
Member x [] = ⊥
Member x (y ∷ ys) = (x ≡ y) ⊎ Member x ys

-- The event of a row has been acknowledged for its target.
abbrev pub Published : Json → Text → Task → World → Type 0
Published json target x s =
    (ev : MessageCreated) × (json.unmarshal x.payload ≡ some ev) × Member (target, ev) s.published

pub record Inv (json : Json) (s : World) : Type 0 where
  pub unique : UniqueTasks s.tasks
  pub delivered :
      (id : ℕ) (target : Text) (x : Task)
      → find_task id target s.tasks ≡ some x
      → x.delivered_at ≢ none
      → Published json target x s

-- What a step of any process leaves: the invariant, every row with its payload, every acknowledgement.
pub record After (json : Json) (s s' : World) : Type 0 where
  pub inv : Inv json s'
  pub kept :
      (id : ℕ) (target : Text) (x : Task)
      → find_task id target s.tasks ≡ some x
      → (x' : Task) × (find_task id target s'.tasks ≡ some x') × (x'.payload ≡ x.payload)
  pub grows : (p : Text × MessageCreated) → Member p s.published → Member p s'.published

abbrev pub Step : Json → World → World → Type 0
Step json s s' = Inv json s → After json s s'

pub Step-refl : (json : Json) (s : World) → Step json s s
Step-refl json s v = record { inv = v; kept = λ id t x f. (x, f, refl); grows = λ p m. m }

pub After-trans :
    (json : Json) (s s' s'' : World) → After json s s' → Step json s' s'' → After json s s''
After-trans json s s' s'' a b =
    let c = b a.inv in
    record {
      inv = c.inv;
      kept = λ id t x f.
          let (x', f', e') = a.kept id t x f in
          let (x'', f'', e'') = c.kept id t x' f' in (x'', f'', e'' ∙ e');
      grows = λ p m. c.grows p (a.grows p m);
    }

Published-as :
    (json : Json) (target : Text) (x y : Task) (s : World)
    → x.payload ≡ y.payload
    → Published json target y s
    → Published json target x s
Published-as json target x y s e (ev, u, m) = (ev, rw e u, m)

-- The row of a key after an UPDATE comes from the row of that key before it.
row_before :
    (test : Task → Bool) (set : Task → Task) (id : ℕ) (target : Text) (ts : List Task) (x : Task)
    → KeepsKey set
    → find_task id target (update_where test set ts) ≡ some x
    → (y : Task) × (find_task id target ts ≡ some y) × (((test y ≡ true) × (x ≡ set y)) ⊎ (x ≡ y))
row_before test set id target ts x k f =
    let e = find_task-update_where test set id target ts k in
    elim (Option-cases (find_task id target ts)) [
      | inl q ↦ absurd (ground arith)
      | inr (y, q) ↦ elim (Bool-cases (test y)) [
        | inl t ↦ (y, q, inl (t, ground arith))
        | inr t ↦ (y, q, inr (ground arith))
      ]
    ]

row_after :
    (test : Task → Bool) (set : Task → Task) (id : ℕ) (target : Text) (ts : List Task) (y : Task)
    → KeepsKey set
    → find_task id target ts ≡ some y
    → find_task id target (update_where test set ts) ≡ some (if test y then set y else y)
row_after test set id target ts y k f = find_task-update_where test set id target ts k ∙ rw f

-- A statement that keeps keys and payloads, and marks only rows whose event is acknowledged.
update-Step :
    (json : Json) (test : Task → Bool) (set : Task → Task) (s : World)
    → KeepsKey set
    → ((x : Task) → (set x).payload ≡ x.payload)
    → ((id : ℕ) (target : Text) (x : Task)
        → find_task id target s.tasks ≡ some x
        → test x ≡ true
        → (set x).delivered_at ≢ none
        → (x.delivered_at ≢ none) ⊎ Published json target x s)
    → Step json s (record s { tasks = update_where test set s.tasks })
update-Step json test set s k p good v = record {
  inv = record {
    unique = update_where-UniqueTasks test set s.tasks k v.unique;
    delivered = λ id target x f n.
        let (y, g, c) = row_before test set id target s.tasks x k f in
        elim c [
          | inr e ↦
              Published-as json target x y s (ap (λ (t : Task). t.payload) e)
                (v.delivered id target y g (rw e at n))
          | inl (t, e) ↦
              Published-as json target x y s (ap (λ (t : Task). t.payload) e ∙ p y)
                (marked id target y g (good id target y g t (rw e at n)))
        ];
  };
  kept = λ id target x f. (
    if test x then set x else x,
    row_after test set id target s.tasks x k f,
    same_payload (test x) x,
  );
  grows = λ q m. m;
}
  where
    marked :
        (id : ℕ) (target : Text) (y : Task)
        → find_task id target s.tasks ≡ some y
        → (y.delivered_at ≢ none) ⊎ Published json target y s
        → Published json target y s
    marked id target y g (inl n) = v.delivered id target y g n
    marked id target y g (inr q) = q

    same_payload : (b : Bool) (x : Task) → (if b then set x else x).payload ≡ x.payload
    same_payload true x = p x
    same_payload false x = refl

pub claim-Step :
    (json : Json) (fate : Fate) (target token : Text) (now lease : ℕ) (s : World)
    → Step json s (record s { tasks = (claim json fate target token now lease s.tasks).1 })
unfolding claim lease_task
claim-Step json (refused e) target token now lease s = Step-refl json s
claim-Step json (lost e) target token now lease s =
    elim (Option-cases (candidate target now s.tasks)) [
      | inl q ↦ rw (q, claim) (Step-refl json s)
      | inr (t, q) ↦
          rw (q, claim)
            (update-Step json (has_key t.message_id t.target) (lease_task token now lease) s
              (lease_task-KeepsKey token now lease) (λ x. refl) (λ id tgt x f h n. inl n))
    ]
claim-Step json done target token now lease s = elim (Option-cases (candidate target now s.tasks)) [
  | inl q ↦ rw (q, claim) (Step-refl json s)
  | inr (t, q) ↦
      rw (q, claim)
        (update-Step json (has_key t.message_id t.target) (lease_task token now lease) s
          (lease_task-KeepsKey token now lease) (λ x. refl) (λ id tgt x f h n. inl n))
]

-- The row that a delivery was made from.
abbrev pub HasRow : Json → Delivery → World → Type 0
HasRow json d s =
    (x : Task) × (find_task d.message_id d.target s.tasks ≡ some x)
    × (json.unmarshal x.payload ≡ some d.event)

pub HasRow-After :
    (json : Json) (d : Delivery) (s s' : World)
    → After json s s'
    → HasRow json d s
    → HasRow json d s'
HasRow-After json d s s' a (x, f, u) =
    let (x', f', e) = a.kept d.message_id d.target x f in (x', f', rw e u)

pub retry-Step :
    (json : Json) (fate : Fate) (now delay : ℕ) (d : Delivery) (s : World)
    → Step json s (record s { tasks = (retry fate now delay d s.tasks).1 })
unfolding retry
retry-Step json (refused e) now delay d s = Step-refl json s
retry-Step json (lost e) now delay d s =
    update-Step json (holds_lease d) (postpone now delay) s (postpone-KeepsKey now delay)
      (λ x. refl) (λ id tgt x f h n. inl n)
retry-Step json done now delay d s =
    update-Step json (holds_lease d) (postpone now delay) s (postpone-KeepsKey now delay)
      (λ x. refl) (λ id tgt x f h n. inl n)

-- The row that Complete marks is the row of the delivery.
holds_lease_row :
    (json : Json) (d : Delivery) (s : World) (id : ℕ) (target : Text) (x : Task)
    → HasRow json d s
    → Member (d.target, d.event) s.published
    → find_task id target s.tasks ≡ some x
    → holds_lease d x ≡ true
    → Published json target x s
holds_lease_row json d s id target x (y, g, u) m f h =
    let a = key_of_has_key d.message_id d.target x (unfold holds_lease in ground arith) in
    let b = key_of_has_key id target x (has_key_found id target s.tasks x f) in
    let e : d.target ≡ target = sym a.1 ∙ b.1 in
    let xy : x ≡ y = same (sym b.0 ∙ a.0) (sym e) in (d.event, rw xy u, rw (← e) m)
  where
    same : id ≡ d.message_id → target ≡ d.target → x ≡ y
    same p q = cc

pub complete-Step :
    (json : Json) (fate : Fate) (now : ℕ) (d : Delivery) (s : World)
    → HasRow json d s
    → Member (d.target, d.event) s.published
    → Step json s (record s { tasks = (complete fate now d s.tasks).1 })
unfolding complete
complete-Step json (refused e) now d s r m = Step-refl json s
complete-Step json (lost e) now d s r m =
    update-Step json (holds_lease d) (mark_delivered now) s (mark_delivered-KeepsKey now)
      (λ x. refl) (λ id tgt x f h n. inr (holds_lease_row json d s id tgt x r m f h))
complete-Step json done now d s r m =
    update-Step json (holds_lease d) (mark_delivered now) s (mark_delivered-KeepsKey now)
      (λ x. refl) (λ id tgt x f h n. inr (holds_lease_row json d s id tgt x r m f h))
