-- ===== src/Tarantool/Contract.antt =====
-- Tarantool as the cache of the HTTP handlers: on one healthy node it keeps their contract.
use otus_app.Base.{ℕ, ◌+◌, ◌≤◌, ◌≡◌, refl, false, Option, none, some, arith, ap, ◌∙◌}
use otus_app.Base.Int.{pos, ltb_ℤ}
use otus_app.Text.{Text, text_eq_refl, lookup-insert, lookup-delete}
use otus_app.Http.Messages.{Cache}
use otus_app.Http.Messages.Coherence.{IsCache}
use otus_app.Tarantool.{
  Space, unix, time_to_live, applied, get_key, set_key, delete_key, select_key, read_answer,
  read_tuple, to_int64, tuple_of,
}

-- The cache on the master alone, at a time.
abbrev pub master_cache : ℕ → Cache Space
master_cache now = record {
  get = λ key w. (get_key now key w, w);
  set = λ key v w. set_key now applied key v w;
  delete = λ key w. delete_key applied key w;
}

read_stored :
    (now : ℕ) (key v : Text) (o : Option (Text × ℕ))
    → o ≡ some (v, unix (now + time_to_live))
    → read_answer now (some (tuple_of key o)) ≡ some v
unfolding read_answer read_tuple to_int64
read_stored now key v o h =
    rw h (rw (not_later (unix now) (unix (now + time_to_live)) (omega arith)) refl)
  where
    not_later : (a b : ℕ) → a ≤ b → ltb_ℤ (pos b) (pos a) ≡ false
    not_later a b h = ground arith

read_missing :
    (now : ℕ) (key : Text) (o : Option (Text × ℕ))
    → o ≡ none
    → read_answer now (some (tuple_of key o)) ≡ none
unfolding read_answer
read_missing now key o h = rw h refl

-- On one node that applies every write, the cache finds what was stored, for as long as the time stands, and
-- forgets what was deleted.
pub master_cache-IsCache : (now : ℕ) → IsCache (master_cache now)
unfolding get_key select_key set_key delete_key
master_cache-IsCache now = record {
  get-delete = λ k w.
      ap (λ o. (o, delete_key applied k w))
        (read_missing now k _ (lookup-delete k k w ∙ rw (text_eq_refl k) refl));
  get-set = λ k v w.
      ap (λ o. (o, set_key now applied k v w))
        (read_stored now k v _
          (lookup-insert k k (v, unix (now + time_to_live)) w ∙ rw (text_eq_refl k) refl));
}
