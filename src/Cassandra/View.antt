-- ===== src/Cassandra/View.antt =====
-- The feed as a set of events: order and repetition of deliveries do not show.
use otus_app.Base.{
  ℕ, ◌*◌, ◌/◌, ◌≡◌, refl, Bool, true, false, ◌&&◌, ◌||◌, List, [], ◌∷◌, Option, some, arith, ◌==◌,
  ==_iff, if◌then◌else◌, ap, sym, ◌∙◌, Bool-cases, inl, inr,
}
use otus_app.Text.{Text}
use otus_app.Messaging.{MessageCreated}
use otus_app.Cassandra.{
  Event, Tables, BatchFate, applied, refused, unanswered, same_id, upsert, event_of, cql_timestamp,
  write_batch, save, find_id, get_event_by_id,
}

-- The event as it was sent, its time cut to whole milliseconds.
abbrev pub sent_row : MessageCreated → Text → Event
sent_row ev producer = record {
  id = ev.id;
  text = ev.text;
  checksum = ev.checksum;
  producer = producer;
  created_at = ev.created_at / 1000000 * 1000000;
}

find_id-upsert :
    (id : ℕ) (ev : Event) (rows : List Event)
    → find_id id (upsert same_id ev rows) ≡ (if ev.id == id then some ev else find_id id rows)
unfolding find_id upsert same_id
find_id-upsert id ev [] = refl
find_id-upsert id ev (b ∷ rows) = ground (arith, find_id-upsert id ev rows)

pub get_event_by_id-write_batch :
    (day : ℕ → Text) (id : ℕ) (ev : MessageCreated) (producer : Text) (t : Tables)
    → get_event_by_id id (write_batch day ev producer t)
      ≡ (if ev.id == id then some (sent_row ev producer) else get_event_by_id id t)
unfolding get_event_by_id write_batch event_of cql_timestamp
get_event_by_id-write_batch day id ev producer t = find_id-upsert id (event_of ev producer) t.by_id

-- A delivery to Save, with what becomes of its batch.
pub record Saving : Type 0 where
  pub event : MessageCreated
  pub fate : BatchFate

unfoldable pub was_applied : BatchFate → Bool
was_applied applied = true
was_applied (refused e) = false
was_applied (unanswered e) = true

-- The specification: the set of the ids that were written.
unfoldable pub is_member : ℕ → List Saving → Bool
is_member id [] = false
is_member id (d ∷ ds) = (was_applied d.fate && d.event.id == id) || is_member id ds

either : {A : Type 0} (b : Bool) (a : A) → (if b then a else a) ≡ a
either true a = refl
either false a = refl

module _ (day : ℕ → Text) (producer : Text) where
  unfoldable pub saves : List Saving → Tables → Tables
  saves [] t = t
  saves (d ∷ ds) t = saves ds (save day d.fate d.event producer t).1

  -- Every delivery with an id carries the event of that id.
  unfoldable pub AllOf : (ℕ → MessageCreated) → List Saving → Type 0
  AllOf event [] = Unit {0}
  AllOf event (d ∷ ds) = (event d.event.id ≡ d.event) × AllOf event ds

  -- One delivery.
  pub get_event_by_id-save :
      (id : ℕ) (f : BatchFate) (ev : MessageCreated) (t : Tables)
      → get_event_by_id id (save day f ev producer t).1 ≡ (
          if was_applied f && ev.id == id
          then some (sent_row ev producer)
          else get_event_by_id id t)
  unfolding save was_applied
  get_event_by_id-save id applied ev t = get_event_by_id-write_batch day id ev producer t
  get_event_by_id-save id (refused e) ev t = refl
  get_event_by_id-save id (unanswered e) ev t = get_event_by_id-write_batch day id ev producer t

  -- The event that a delivery writes is that of its id.
  written :
      (event : ℕ → MessageCreated) (id : ℕ) (ev : MessageCreated) (f m : Bool) (o : Option Event)
      → event ev.id ≡ ev
      → (if m
          then some (sent_row (event id) producer)
          else if f && ev.id == id
          then some (sent_row ev producer)
          else o)
        ≡ (if f && ev.id == id || m then some (sent_row (event id) producer) else o)
  written event id ev false m o e = refl
  written event id ev true m o e = elim (Bool-cases (ev.id == id)) [
    | inl b ↦
        let same : event id ≡ ev = ap event (sym ((==_iff ev.id id).0 b)) ∙ e in
        rw (b, same) (either m (some (sent_row ev producer)))
    | inr b ↦ rw b refl
  ]

  -- The table by id refines a set of ids: if deliveries of the same id carry the same event, then
  -- after any deliveries to Save, in any order, repeated, refused or applied without an answer,
  -- ByID finds for each id that was written the event, its time cut to milliseconds, and for
  -- every other id what it found before.
  pub saves-is_member :
      (event : ℕ → MessageCreated) (ds : List Saving) (id : ℕ) (t : Tables)
      → AllOf event ds
      → get_event_by_id id (saves ds t)
        ≡ (if is_member id ds then some (sent_row (event id) producer) else get_event_by_id id t)
  unfolding saves is_member AllOf
  saves-is_member event [] id t h = refl
  saves-is_member event (d ∷ ds) id t (e, h) =
      saves-is_member event ds id (save day d.fate d.event producer t).1 h
      ∙ rw (get_event_by_id-save id d.fate d.event t)
          (written event id d.event (was_applied d.fate) (is_member id ds) (get_event_by_id id t) e)
