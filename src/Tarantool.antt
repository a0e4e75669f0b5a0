-- ===== src/Tarantool.antt =====
-- internal/tcache/tcache.go: Get, Set and Delete. A space of Tarantool is the list of its tuples by key; the
-- pool's choice of a node and the fate of a request are arguments. Times are nanoseconds.
pub mod Staleness
pub mod Contract
use otus_app.Base.{ℕ, ◌+◌, ◌*◌, ◌/◌, ◌%◌, List, [], ◌∷◌, Option, none, some, Bool, if◌then◌else◌}
use otus_app.Base.Int.{ℤ, pos, ltb_ℤ, wrap64}
use otus_app.Text.{Text, lookup, insert, delete}
use otus_app.Resilience.Jitter.{second}

-- The values of a tuple, as the driver decodes them: a string; one of the signed types; uint64; uint32; a
-- float64 with its integer part; or of another type.
pub data Value : Type 0 where
  text : Text → Value
  int float : ℤ → Value
  uint64 uint32 : ℕ → Value
  other : Value

-- toInt64
unfoldable pub to_int64 : Value → Option ℤ
to_int64 (int n) = some n
to_int64 (uint64 n) = some (wrap64 (pos n))
to_int64 (uint32 n) = some (pos n)
to_int64 (float n) = some n
to_int64 (text t) = none
to_int64 other = none

-- The space: for each key its value and the second at which it expires.
abbrev pub Space : Type 0
Space = List (Text × (Text × ℕ))

-- The answer of a request is none on an error; an item of it may be no tuple.
abbrev pub Answer : Type 0
Answer = Option (List (Option (List Value)))

abbrev pub unix : ℕ → ℕ
unix now = now / second

abbrev pub unexpired : ℕ → Text → Option ℤ → Option Text
unexpired now v none = none
unexpired now v (some e) = if ltb_ℤ e (pos (unix now)) then none else some v

-- What Get reads from a tuple of the answer.
unfoldable pub read_tuple : ℕ → Option (List Value) → Option Text
read_tuple now none = none
read_tuple now (some []) = none
read_tuple now (some (k ∷ [])) = none
read_tuple now (some (k ∷ v ∷ [])) = none
read_tuple now (some (k ∷ text v ∷ e ∷ rest)) = unexpired now v (to_int64 e)
read_tuple now (some (k ∷ int n ∷ e ∷ rest)) = none
read_tuple now (some (k ∷ float n ∷ e ∷ rest)) = none
read_tuple now (some (k ∷ uint64 n ∷ e ∷ rest)) = none
read_tuple now (some (k ∷ uint32 n ∷ e ∷ rest)) = none
read_tuple now (some (k ∷ other ∷ e ∷ rest)) = none

unfoldable pub read_answer : ℕ → Answer → Option Text
read_answer now none = none
read_answer now (some []) = none
read_answer now (some (t ∷ ts)) = read_tuple now t

-- The select by key at a node with this space.
abbrev pub tuple_of : Text → Option (Text × ℕ) → List (Option (List Value))
tuple_of key none = []
tuple_of key (some (v, e)) = some (text key ∷ text v ∷ int (pos e) ∷ []) ∷ []

unfoldable pub select_key : Text → Space → List (Option (List Value))
select_key key node = tuple_of key (lookup key node)

-- Get at a node that answers.
unfoldable pub get_key : ℕ → Text → Space → Option Text
get_key now key node = read_answer now (some (select_key key node))

-- What becomes of a write: its error is only logged, whether it was applied or not.
pub data Fate : Type 0 where
  applied lost : Fate

-- ttl
abbrev pub time_to_live : ℕ
time_to_live = 10 * second

unfoldable pub set_key : ℕ → Fate → Text → Text → Space → Space
set_key now lost key v space = space
set_key now applied key v space = insert key (v, unix (now + time_to_live)) space

unfoldable pub delete_key : Fate → Text → Space → Space
delete_key lost key space = space
delete_key applied key space = delete key space
