-- ===== src/Tarantool/Staleness.antt =====
-- How old a cached value can be, with replicas that lag behind and writes that are lost.
use otus_app.Base.{
  ℕ, ◌+◌, ◌*◌, ◌<◌, ◌≤◌, ◌≡◌, refl, Bool, true, false, List, [], ◌∷◌, Option, none, some, arith,
  if◌then◌else◌, Bool-cases, inl, inr, ◌⊎◌, tests, ap, sym, ◌∙◌,
}
use otus_app.Base.Int.{pos, ltb_ℤ}
use otus_app.Text.{Text, lookup, text_eq, text_eq_iff, lookup-insert, lookup-delete}
use otus_app.Resilience.Jitter.{second}
use otus_app.Tarantool.{
  Space, unix, time_to_live, Fate, applied, lost, get_key, set_key, delete_key, select_key,
  read_answer, read_tuple, tuple_of, to_int64,
}

-- The master and the replicas, by number.
pub record Cluster : Type 0 where
  pub master : Space
  pub replica : ℕ → Space

-- A write of the application at a time, or a replica that catches up with the master.
pub data Event : Type 0 where
  stored : ℕ → Fate → Text → Text → Event
  deleted : Fate → Text → Event
  replicated : ℕ → Event

abbrev pub caught_up : ℕ → Cluster → ℕ → Space
caught_up i c j = elim (Prim.Native.Nat.compare i j) [
  | Prim.Native.Nat.Ordering.eq ↦ c.master
  | _ ↦ c.replica j
]

unfoldable pub step : Event → Cluster → Cluster
step (stored now f key v) c = record c { master = set_key now f key v c.master }
step (deleted f key) c = record c { master = delete_key f key c.master }
step (replicated i) c = record c { replica = caught_up i c }

-- After a history, latest event first; all nodes start empty.
unfoldable pub after : List Event → Cluster
after [] = record { master = []; replica = λ i. [] }
after (e ∷ es) = step e (after es)

-- The value was set under the key at this time.
unfoldable pub WasSet : Text → Text → ℕ → List Event → Type 0
WasSet key v t [] = ⊥
WasSet key v t (stored now f k w ∷ es) = ((now ≡ t) × (k ≡ key) × (w ≡ v)) ⊎ WasSet key v t es
WasSet key v t (deleted f k ∷ es) = WasSet key v t es
WasSet key v t (replicated i ∷ es) = WasSet key v t es

-- All that a node holds was set, and expires ten seconds later.
abbrev IsRecorded : List Event → Space → Type 0
IsRecorded es node =
    (key v : Text) (e : ℕ)
    → lookup key node ≡ some (v, e)
    → (t : ℕ) × (e ≡ unix (t + time_to_live)) × WasSet key v t es

IsRecorded-later :
    (ev : Event) (es : List Event) (node : Space) → IsRecorded es node → IsRecorded (ev ∷ es) node
unfolding WasSet
IsRecorded-later (stored now f k w) es node h key v e l =
    let (t, p, s) = h key v e l in (t, p, inr s)
IsRecorded-later (deleted f k) es node h key v e l = h key v e l
IsRecorded-later (replicated i) es node h key v e l = h key v e l

entries :
    {a c : Text} {b d : ℕ}
    → ◌≡◌ {A = Option (Text × ℕ)} (some (a, b)) (some (c, d))
    → (a ≡ c) × (b ≡ d)
entries {a} {c} {b} {d} h = (ap (λ o. first o) h, ap (λ o. second_of o) h)
  where
    first : Option (Text × ℕ) → Text
    first none = []
    first (some (x, y)) = x

    second_of : Option (Text × ℕ) → ℕ
    second_of none = 0
    second_of (some (x, y)) = y

set_key-IsRecorded :
    (now : ℕ) (f : Fate) (k w : Text) (es : List Event) (node : Space)
    → IsRecorded es node
    → IsRecorded (stored now f k w ∷ es) (set_key now f k w node)
unfolding set_key WasSet
set_key-IsRecorded now lost k w es node h key v e l = let (t, p, s) = h key v e l in (t, p, inr s)
set_key-IsRecorded now applied k w es node h key v e l = elim (Bool-cases (text_eq k key)) [
  | inl b ↦
      let same = sym (lookup-insert k key (w, unix (now + time_to_live)) node ∙ rw b refl) ∙ l in
      (now, sym ((entries same).1), inl (refl, (text_eq_iff k key).0 b, (entries same).0))
  | inr b ↦
      let old = sym (lookup-insert k key (w, unix (now + time_to_live)) node ∙ rw b refl) ∙ l in
      let (t, p, s) = h key v e old in (t, p, inr s)
]

delete_key-IsRecorded :
    (f : Fate) (k : Text) (es : List Event) (node : Space)
    → IsRecorded es node
    → IsRecorded es (delete_key f k node)
unfolding delete_key
delete_key-IsRecorded lost k es node h key v e l = h key v e l
delete_key-IsRecorded applied k es node h key v e l = elim (Bool-cases (text_eq k key)) [
  | inl b ↦ absurd (none_some (sym (lookup-delete k key node ∙ rw b refl) ∙ l))
  | inr b ↦ h key v e (sym (lookup-delete k key node ∙ rw b refl) ∙ l)
]
  where
    none_some : {x : Text × ℕ} → none ≡ some x → ⊥
    none_some h = ground arith

-- The same for all nodes of a cluster.
abbrev AreRecorded : List Event → Cluster → Type 0
AreRecorded es c = IsRecorded es c.master × ((i : ℕ) → IsRecorded es (c.replica i))

caught_up-IsRecorded :
    (i j : ℕ) (es : List Event) (c : Cluster) → AreRecorded es c → IsRecorded es (caught_up i c j)
caught_up-IsRecorded i j es c (m, r) key v e l = ground (arith, m key v e, r j key v e)

step-AreRecorded :
    (ev : Event) (es : List Event) (c : Cluster)
    → AreRecorded es c
    → AreRecorded (ev ∷ es) (step ev c)
unfolding step
step-AreRecorded (stored now f k v) es c (m, r) = (
  set_key-IsRecorded now f k v es c.master m,
  λ i. IsRecorded-later (stored now f k v) es (c.replica i) (r i),
)
step-AreRecorded (deleted f k) es c (m, r) = (
  IsRecorded-later (deleted f k) es _ (delete_key-IsRecorded f k es c.master m),
  λ i. IsRecorded-later (deleted f k) es (c.replica i) (r i),
)
step-AreRecorded (replicated i) es c (m, r) = (
  IsRecorded-later (replicated i) es c.master m,
  λ j. IsRecorded-later (replicated i) es _ (caught_up-IsRecorded i j es c (m, r)),
)

after-AreRecorded : (es : List Event) → AreRecorded es (after es)
unfolding after
after-AreRecorded [] = (λ key v e l. absurd (empty key l), λ i key v e l. absurd (empty key l))
  where
    empty : (key : Text) {x : Text × ℕ} → lookup key [] ≡ some x → ⊥
    empty key l = unfold lookup in ground arith
after-AreRecorded (e ∷ es) = step-AreRecorded e es (after es) (after-AreRecorded es)

-- The node that the pool chose.
abbrev pub node_of : Cluster → Option ℕ → Space
node_of c none = c.master
node_of c (some i) = c.replica i

node_of-IsRecorded :
    (es : List Event) (c : Cluster) (chosen : Option ℕ)
    → AreRecorded es c
    → IsRecorded es (node_of c chosen)
node_of-IsRecorded es c none (m, r) = m
node_of-IsRecorded es c (some i) (m, r) = r i

-- What a node gives has not expired.
same_value :
    {v w : Text} (b : Bool) (e : ℕ)
    → b ≡ false
    → (if b then none else some w) ≡ some v
    → ◌≡◌ {A = Option (Text × ℕ)} (some (w, e)) (some (v, e))
same_value true e b h = absurd (ground arith)
same_value {v} {w} false e b h = ap (λ o. stamped o) h
  where
    stamped : Option Text → Option (Text × ℕ)
    stamped none = none
    stamped (some x) = some (x, e)

get_key-unexpired :
    (now : ℕ) (key v : Text) (o : Option (Text × ℕ))
    → read_answer now (some (tuple_of key o)) ≡ some v
    → (e : ℕ) × (o ≡ some (v, e)) × (unix now ≤ e)
unfolding read_answer read_tuple to_int64
get_key-unexpired now key v none h = absurd (ground arith)
get_key-unexpired now key v (some (w, e)) h = elim (Bool-cases (ltb_ℤ (pos e) (pos (unix now)))) [
  | inl b ↦ absurd (ground arith)
  | inr b ↦ (e, same_value (ltb_ℤ (pos e) (pos (unix now))) e b h, omega (tests))
]

-- A value that had not expired was set not long ago.
recent : (now t e : ℕ) → e ≡ unix (t + time_to_live) → unix now ≤ e → now < t + 11 * second
recent now t e p h = omega (arith)

-- Whatever writes to the cache are lost and however far its replicas lag behind the master: a
-- value that Get returns from any node was set under its key, less than eleven seconds before.
pub get_key-WasSet :
    (es : List Event) (now : ℕ) (key v : Text) (chosen : Option ℕ)
    → get_key now key (node_of (after es) chosen) ≡ some v
    → (t : ℕ) × WasSet key v t es × (now < t + 11 * second)
unfolding get_key select_key
get_key-WasSet es now key v chosen h =
    let (e, l, late) = get_key-unexpired now key v (lookup key (node_of (after es) chosen)) h in
    let (t, p, s) = node_of-IsRecorded es (after es) chosen (after-AreRecorded es) key v e l in
    (t, s, recent now t e p late)
