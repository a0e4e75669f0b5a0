-- ===== src/Outbox/Guarantee.antt =====
-- Delivery at least once: a task is marked as delivered only after the broker has acknowledged its
-- event, whatever fails and whatever other processes do meanwhile.
use otus_app.Base.{
  ℕ, ◌*◌, ◌≡◌, ◌≢◌, refl, Bool, true, false, ◌&&◌, Option, none, some, List, [], ◌∷◌, arith,
  Bool-cases, inl, inr, ◌⊎◌,
}
use otus_app.Resilience.Jitter.{second}
use otus_app.Text.{Text}
use otus_app.Messaging.{Error, Result, ok, err, MessageCreated}
use otus_app.Storage.Tables.{Fate, done, refused, lost, Json}
use otus_app.Storage.Outbox.{Delivery, claim, lease_task}
use otus_app.Storage.Outbox.Rows.{UniqueTasks}
use otus_app.Storage.Outbox.Leases.{claim-Claimed}
use otus_app.Outbox.{
  World, Worker, Input, Turn, goes_on, returns, run, attempt_publish, broker_keeps, deliver_event,
  finish_failed, finish_done, finish, handle, after_claim, turn, observe,
}
use otus_app.Outbox.Steps.{
  Member, Inv, After, Step, Step-refl, After-trans, claim-Step, HasRow, HasRow-After, retry-Step,
  complete-Step,
}

publish-Step :
    (json : Json) (p : Text × MessageCreated) (s : World)
    → Step json s (record s { published = p ∷ s.published })
publish-Step json p s v = record {
  inv = record {
    unique = v.unique;
    delivered = λ id t x f n. let (ev, u, m) = v.delivered id t x f n in (ev, u, inr m);
  };
  kept = λ id t x f. (x, f, refl);
  grows = λ q m. inr m;
}

deliver_event-Step :
    (json : Json) (inp : Input) (called : Bool) (d : Delivery) (s : World)
    → Step json s (deliver_event inp called d s)
unfolding deliver_event
deliver_event-Step json inp called d s = elim (Bool-cases (called && broker_keeps inp)) [
  | inl y ↦ rw (y, deliver_event) (publish-Step json (d.target, d.event) s)
  | inr n ↦ rw (n, deliver_event) (Step-refl json s)
]

attempt_publish_nil :
    (inp : Input) (present : Bool)
    → let (_, called, e) = attempt_publish inp present in
      e ≡ none → (called ≡ true) × (broker_keeps inp ≡ true)
unfolding attempt_publish broker_keeps
attempt_publish_nil inp true h = (refl, ground arith)
attempt_publish_nil inp false h = ground arith

-- Publish that answered nil was called, and its event is with the broker.
deliver_event_acknowledged :
    (inp : Input) (present : Bool) (d : Delivery) (s : World)
    → let (_, called, e) = attempt_publish inp present in
      e ≡ none → Member (d.target, d.event) (deliver_event inp called d s).published
deliver_event_acknowledged inp present d s h =
    let (c, k) = attempt_publish_nil inp present h in
    rw (c) (unfold deliver_event in rw (k) (inl refl))

finish-Step :
    (json : Json) (inp : Input) (d : Delivery) (e : Option Error) (w : Worker) (s : World)
    → HasRow json d s
    → (e ≡ none → Member (d.target, d.event) s.published)
    → Step json s (finish inp d e w s).1.1
unfolding finish finish_done finish_failed
finish-Step json inp d none w s r m =
    complete-Step json inp.finish_fate inp.finish_now d s r (m refl)
finish-Step json inp d (some e) w s r m = retry-Step json inp.finish_fate inp.finish_now _ d s

-- Other processes take steps of the same kind.
abbrev pub Behaves : Json → Input → Type 0
Behaves json inp =
    ((s : World) → Step json s (inp.meanwhile s)) × ((s : World) → Step json s (inp.afterwards s))

handle-Step :
    (json : Json) (inp : Input) (d : Delivery) (w : Worker) (s : World)
    → Behaves json inp
    → HasRow json d s
    → Step json s (handle inp d w s).1.1
unfolding handle
handle-Step json inp d w s b r v =
    let p = attempt_publish inp w.publisher in
    let s₁ = inp.meanwhile s in
    let s₂ = deliver_event inp p.1 d s₁ in
    let s₃ = inp.afterwards s₂ in
    let a₁ = b.0 s v in
    let a₂ = After-trans json s s₁ s₂ a₁ (deliver_event-Step json inp p.1 d s₁) in
    let last = b.1 s₂ a₂.inv in
    let a₃ = After-trans json s s₂ s₃ a₂ (b.1 s₂) in
    After-trans json s s₃ _ a₃ (
      finish-Step json inp d p.2 (record w { publisher = p.0 }) s₃ (HasRow-After json d s s₃ a₃ r)
        (λ e. last.grows _ (deliver_event_acknowledged inp w.publisher d s₁ e)))

after_claim-Step :
    (json : Json) (inp : Input) (r : Result (Option Delivery)) (w : Worker) (s : World)
    → Behaves json inp
    → ((d : Delivery) → r ≡ ok (some d) → HasRow json d s)
    → Step json s (after_claim inp r w s).1.1
unfolding after_claim
after_claim-Step json inp (err e) w s b h = Step-refl json s
after_claim-Step json inp (ok none) w s b h = Step-refl json s
after_claim-Step json inp (ok (some d)) w s b h =
    handle-Step json inp d (record w { claim_attempt = 0 }) s b (h d refl)

claim-HasRow :
    (json : Json) (fate : Fate) (target token : Text) (now lease : ℕ) (s : World) (d : Delivery)
    → UniqueTasks s.tasks
    → (claim json fate target token now lease s.tasks).0 ≡ ok (some d)
    → HasRow json d (record s { tasks = (claim json fate target token now lease s.tasks).1 })
claim-HasRow json (refused e) target token now lease s d u h = absurd (unfold claim in ground arith)
claim-HasRow json (lost e) target token now lease s d u h = absurd (lost_ok h)
  where
    lost_ok : (claim json (lost e) target token now lease s.tasks).0 ≢ ok (some d)
    lost_ok h = unfold claim in ground arith
claim-HasRow json done target token now lease s d u h =
    let ts' = (claim json done target token now lease s.tasks).1 in
    let (t, c) = claim-Claimed json target token now lease s.tasks ts' d u (pair h) in
    (lease_task token now lease t, c.leased, unfold lease_task in c.decoded)
  where
    pair :
        (claim json done target token now lease s.tasks).0 ≡ ok (some d)
        → claim json done target token now lease s.tasks
          ≡ (ok (some d), (claim json done target token now lease s.tasks).1)
    pair h = cc

-- One turn of a worker is a step of the same kind as those that it allows to others.
pub turn-Step :
    (json : Json) (target : Text) (inp : Input) (w : Worker) (s : World)
    → Behaves json inp
    → Step json s (turn json target inp (w, s)).1.1
unfolding turn
turn-Step json target inp w s b v =
    let r = (claim json inp.claim_fate target inp.token inp.claim_now (45 * second) s.tasks).0 in
    let s' = record s {
      tasks = (claim json inp.claim_fate target inp.token inp.claim_now (45 * second) s.tasks).1;
    } in
    After-trans json s s' _
      (claim-Step json inp.claim_fate target inp.token inp.claim_now (45 * second) s v)
      (after_claim-Step json inp r (observe inp target w s) s' b (λ d e.
        claim-HasRow json inp.claim_fate target inp.token inp.claim_now (45 * second) s d v.unique
          e))

Turn-cases : (t : Turn) → (t ≡ goes_on) ⊎ (t ≡ returns)
Turn-cases goes_on = inl refl
Turn-cases returns = inr refl

abbrev pub AllBehave : Json → List Input → Type 0
AllBehave json [] = Unit {0}
AllBehave json (inp ∷ inps) = Behaves json inp × AllBehave json inps

-- At least once. Through the whole life of a worker, with any faults of the database and the broker
-- and with other processes that take such steps themselves: every task that is marked as delivered has
-- a payload that decodes to an event which the broker of its target has acknowledged; no task is lost
-- or gets another payload; and nothing acknowledged is forgotten.
pub run-Step :
    (json : Json) (target : Text) (inps : List Input) (w : Worker) (s : World)
    → AllBehave json inps
    → Inv json s
    → After json s (run json target inps (w, s)).1
unfolding run
run-Step json target [] w s b v = Step-refl json s v
run-Step json target (inp ∷ inps) w s b v =
    let a = turn-Step json target inp w s b.0 v in
    let (w', s') = (turn json target inp (w, s)).1 in
    elim (Turn-cases (turn json target inp (w, s)).0) [
      | inl e ↦ rw (e, run) (After-trans json s s' _ a (run-Step json target inps w' s' b.1))
      | inr e ↦ rw (e, run) a
    ]
