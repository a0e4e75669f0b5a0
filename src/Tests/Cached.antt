-- ===== src/Tests/Cached.antt =====
-- The cache of Tarantool and the watch on etcd at concrete inputs.
use otus_app.Base.{
  ℕ, ◌+◌, ◌*◌, ◌<◌, ◌≡◌, refl, Option, none, some, List, [], ◌∷◌, ltb, if◌then◌else◌,
}
use otus_app.Text.{Text, codes, text_eq, lookup, insert}
use otus_app.Resilience.Jitter.{second}
use otus_app.Tarantool.{
  applied, get_key, set_key, delete_key, select_key, read_answer, read_tuple, to_int64,
}
use otus_app.Tarantool.Staleness.{
  Event, stored, deleted, replicated, after, step, node_of, WasSet, get_key-WasSet,
}
use otus_app.Coordination.{put, watch_failed, events, current, WatchRound}

-- Deleted on the master, a value is still read from a replica that lags behind.
abbrev history : List Event
history =
    deleted applied (codes "messages")
    ∷ replicated 1
    ∷ stored (3 * second) applied (codes "messages") (codes "v")
    ∷ []

stale_read :
    get_key (13 * second) (codes "messages") (node_of (after history) (some 1)) ≡ some (codes "v")
unfolding after step get_key select_key read_answer read_tuple to_int64 set_key delete_key lookup
    insert text_eq
stale_read = refl

get_key-WasSet_example :
    (t : ℕ) × WasSet (codes "messages") (codes "v") t history × (13 * second < t + 11 * second)
get_key-WasSet_example =
    get_key-WasSet history (13 * second) (codes "messages") (codes "v") (some 1) stale_read

-- A key that is 10 up to revision 4, then 20, and after the reconnection 30.
abbrev value_at : ℕ → Option Text
value_at r =
    if ltb r 5 then some (codes "10") else if ltb r 9 then some (codes "20") else some (codes "30")

abbrev rounds : List WatchRound
rounds =
    record {
      responses = events (put (codes "20") ∷ []) 5 ∷ watch_failed ∷ [];
      refetch = some (current (some (codes "30")) 9);
    }
    ∷ record { responses = []; refetch = none }
    ∷ []
