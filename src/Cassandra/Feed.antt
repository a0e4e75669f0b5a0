-- ===== src/Cassandra/Feed.antt =====
-- Saving is idempotent, a saved event is found, and Scan finds the first matches.
use otus_app.Base.{
  ℕ, suc, zero, ◌+◌, ◌-◌, ◌≤◌, ◌<◌, ◌≡◌, refl, Bool, true, false, ◌&&◌, List, [], ◌∷◌, ◌++◌, none,
  some, if◌then◌else◌, ltb, length, take, arith, Bool-cases, inl, inr, length-append, ap, ◌∙◌,
}
use mathlib.Core.List.{append-nil, append_assoc}
use otus_app.Base.Int.{pos}
use otus_app.Text.{Text, text_eq_refl}
use otus_app.Messaging.{MessageCreated}
use otus_app.Cassandra.{
  Event, Tables, same_feed_key, same_id, upsert, event_of, write_batch, applied, unanswered, save,
  find_id, get_event_by_id, scan_row, scan_rows, scan_events,
}

module _ {A : Type 0} (same : A → A → Bool) where
  upsert_twice :
      (a : A) (rows : List A)
      → same a a ≡ true
      → upsert same a (upsert same a rows) ≡ upsert same a rows
  unfolding upsert
  upsert_twice a [] h = rw h refl
  upsert_twice a (b ∷ rows) h = elim (Bool-cases (same b a)) [
    | inl e ↦ rw (e, h) refl
    | inr e ↦ rw (e, e) (ap (λ r. b ∷ r) (upsert_twice a rows h))
  ]

same_feed_key_refl : (r : Text × Event) → same_feed_key r r ≡ true
unfolding same_feed_key
same_feed_key_refl (d, ev) = ground (arith, text_eq_refl d)

same_id_refl : (ev : Event) → same_id ev ev ≡ true
unfolding same_id
same_id_refl ev = ground arith

find_id-upsert : (ev : Event) (rows : List Event) → find_id ev.id (upsert same_id ev rows) ≡ some ev
unfolding find_id upsert same_id
find_id-upsert ev [] = ground arith
find_id-upsert ev (b ∷ rows) = ground (arith, find_id-upsert ev rows)

write_twice :
    (day : ℕ → Text) (ev : MessageCreated) (producer : Text) (t : Tables)
    → write_batch day ev producer (write_batch day ev producer t) ≡ write_batch day ev producer t
unfolding write_batch
write_twice day ev producer t =
    rw
      (
        upsert_twice same_feed_key (day ev.created_at, event_of ev producer) t.feed
            (same_feed_key_refl (day ev.created_at, event_of ev producer)),
        upsert_twice same_id (event_of ev producer) t.by_id (same_id_refl (event_of ev producer)),
      )
      refl

-- Saving an event again changes nothing, and brings about the same tables if the first delivery
-- was applied but ended in an error; the event is then found by its id.
pub save_again :
    (day : ℕ → Text) (ev : MessageCreated) (producer : Text) (e : ℕ) (t : Tables)
    → (let t' = (save day applied ev producer t).1 in
        (save day applied ev producer t' ≡ (none, t'))
        × (save day applied ev producer (save day (unanswered e) ev producer t).1 ≡ (none, t'))
        × (get_event_by_id ev.id t' ≡ some (event_of ev producer)))
unfolding save get_event_by_id write_batch event_of
save_again day ev producer e t =
    let twice = write_twice day ev producer t in
    (
      ap (λ t'. (none, t')) twice,
      ap (λ t'. (none, t')) twice,
      find_id-upsert (event_of ev producer) t.by_id,
    )

-- The events that match, in order.
unfoldable pub matching : (Text → Bool) → List Event → List Event
matching matches [] = []
matching matches (ev ∷ rows) =
    let rest = matching matches rows in if matches ev.text then ev ∷ rest else rest

take-nil : (n : ℕ) → take {A = Event} n [] ≡ []
take-nil zero = refl
take-nil (suc n) = refl

take-room :
    (limit n : ℕ) (ev : Event) (rows : List Event)
    → n < limit
    → take (limit - n) (ev ∷ rows) ≡ ev ∷ take (limit - (n + 1)) rows
take-room limit n ev rows h =
    let e : limit - n ≡ suc (limit - (n + 1)) = omega arith in ap (λ k. take k (ev ∷ rows)) e

take-full : (limit n : ℕ) (rows : List Event) → limit ≤ n → take (limit - n) rows ≡ []
take-full limit n rows h = let e : limit - n ≡ 0 = omega arith in ap (λ k. take k rows) e

-- A row that is taken, and one that is not.
scan_row-found :
    (matches : Text → Bool) (limit : ℕ) (ev : Event) (found : List Event) (n : ℕ)
    → length found < limit
    → matches ev.text ≡ true
    → scan_row matches (pos limit) ev (found, n) ≡ (found ++ ev ∷ [], n + 1)
unfolding scan_row
scan_row-found matches limit ev found n h e = ground arith

scan_row-skipped :
    (matches : Text → Bool) (limit : ℕ) (ev : Event) (found : List Event) (n : ℕ)
    → (ltb (length found) limit && matches ev.text) ≡ false
    → scan_row matches (pos limit) ev (found, n) ≡ (found, n + 1)
unfolding scan_row
scan_row-skipped matches limit ev found n e = ground arith

same_count :
    (events : List Event) (n m : ℕ)
    → ◌≡◌ {A = List Event × ℕ} (events, n + 1 + m) (events, n + suc m)
same_count events n m = let e : n + 1 + m ≡ n + suc m = omega arith in ap (λ k. (events, k)) e

scan_rows-eq :
    (matches : Text → Bool) (limit : ℕ) (rows found : List Event) (n : ℕ)
    → scan_rows matches (pos limit) rows (found, n)
      ≡ (found ++ take (limit - length found) (matching matches rows), n + length rows)
unfolding scan_rows matching
scan_rows-eq matches limit [] found n =
    rw (take-nil (limit - length found), append-nil found) (ap (λ k. (found, k)) (omega arith))
scan_rows-eq matches limit (ev ∷ rows) found n =
    elim (Bool-cases (ltb (length found) limit && matches ev.text)) [
      | inl b ↦
          let l : length found < limit = ground arith in
          let e : matches ev.text ≡ true = ground arith in
          ap (scan_rows matches (pos limit) rows) (scan_row-found matches limit ev found n l e)
          ∙ scan_rows-eq matches limit rows (found ++ ev ∷ []) (n + 1)
          ∙ rw
              (
                e,
                length-append found (ev ∷ []),
                append_assoc found (ev ∷ []),
                take-room limit (length found) ev (matching matches rows) l,
              )
              (same_count (found ++ ev ∷ take (limit - (length found + 1)) (matching matches rows))
                n (length rows))
      | inr b ↦
          ap (scan_rows matches (pos limit) rows) (scan_row-skipped matches limit ev found n b)
          ∙ scan_rows-eq matches limit rows found (n + 1)
          ∙ elim (Bool-cases (matches ev.text)) [
            | inl f ↦
                let g : limit ≤ length found = ground arith in
                rw
                  (
                    f,
                    take-full limit (length found) (matching matches rows) g,
                    take-full limit (length found) (ev ∷ matching matches rows) g,
                  )
                  (same_count (found ++ []) n (length rows))
            | inr f ↦ rw f (
                same_count (found ++ take (limit - length found) (matching matches rows)) n
                  (length rows))
          ]
    ]

first_all : (n : ℕ) → n - 0 ≡ n
first_all n = omega arith

zero_add : (n : ℕ) → 0 + n ≡ n
zero_add n = omega arith

-- With a limit that is not negative, Scan counts every row and finds the first matching rows up
-- to the limit, in order.
pub scan_events-matching :
    (matches : Text → Bool) (limit : ℕ) (rows : List Event)
    → scan_events matches (pos limit) rows ≡ (take limit (matching matches rows), length rows)
unfolding scan_events
scan_events-matching matches limit rows =
    scan_rows-eq matches limit rows [] 0
    ∙ rw (first_all limit)
        (ap (λ k. (take limit (matching matches rows), k)) (zero_add (length rows)))
