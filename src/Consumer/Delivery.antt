-- ===== src/Consumer/Delivery.antt =====
-- From the broker to the stores: what a Kafka reader committed has been saved and indexed.
use otus_app.Base.{
  ℕ, ◌≡◌, refl, Bool, true, false, List, [], ◌∷◌, Option, none, some, arith, ◌==◌, ap, sym, ◌∙◌,
  ==_iff, ◌&&◌, Bool-cases, inl, inr,
}
use otus_app.Text.{Text}
use otus_app.Messaging.{MessageCreated}
use otus_app.Cassandra.{Tables, BatchFate, applied, refused, unanswered, save, get_event_by_id}
use otus_app.Cassandra.View.{
  sent_row, get_event_by_id-write_batch, get_event_by_id-save, was_applied,
}
use otus_app.Search.{Document}
use otus_app.Consumer.{Sinks, handle_event, after_save, save_event}
use otus_app.Broker.Kafka.{
  Record, Fetch, fetched, fetch_failed, ctx_done, Stop, Consumer, commit_record, after_handle,
  after_decode, consume_record, or_continue, consume,
}

-- The document of an event, as it was sent.
abbrev sent_document : MessageCreated → Text → Document
sent_document ev broker_name = record {
  id = ev.id;
  text = ev.text;
  checksum = ev.checksum;
  producer = broker_name;
  created_at = ev.created_at;
}

-- The tables of Cassandra, what becomes of the coming batches, and the search index with its world.
pub record World (X : Type 0) : Type 0 where
  pub tables : Tables
  pub fates : List BatchFate
  pub docs : X

abbrev next_fate : List BatchFate → BatchFate
next_fate [] = applied
next_fate (f ∷ fs) = f

abbrev later : List BatchFate → List BatchFate
later [] = []
later (f ∷ fs) = fs

module _ {X : Type 0} (day : ℕ → Text) (put : Document → X → Option ℕ × X)
    (broker_name : Text) where
  abbrev pub saved : Option ℕ × Tables → World X → Option ℕ × World X
  saved r w = (r.0, record w { tables = r.1; fates = later w.fates })

  abbrev pub indexed : Option ℕ × X → World X → Option ℕ × World X
  indexed r w = (r.0, record w { docs = r.1 })

  -- Both stores are configured.
  abbrev pub sinks : Sinks ℕ (World X)
  sinks = record {
    events = some (λ ev producer w. saved (save day (next_fate w.fates) ev producer w.tables) w);
    index = some (λ doc w. indexed (put doc w.docs) w);
  }

  abbrev pub handle : MessageCreated → World X → Option ℕ × World X
  handle ev w = handle_event sinks broker_name ev w

-- A search index where a document that was put without an error is held, until another document of its id
-- is put (documented: the index API replaces the document of the id and no other).
pub record Holding {X : Type 0} (put : Document → X → Option ℕ × X) (Holds : Document → X → Type 0)
    : Type 0 where
  pub held : (doc : Document) (x : X) → (put doc x).0 ≡ none → Holds doc (put doc x).1
  pub kept :
      (doc other : Document) (x : X)
      → (other.id ≡ doc.id → other ≡ doc)
      → Holds doc x
      → Holds doc (put other x).1

module _ {X : Type 0} (day : ℕ → Text) (put : Document → X → Option ℕ × X) (broker_name : Text)
    (Holds : Document → X → Type 0) (law : Holding put Holds) (event : ℕ → MessageCreated)
    (decode : Text → Option MessageCreated) where
  -- The event is in both stores.
  abbrev pub IsStored : MessageCreated → World X → Type 0
  IsStored ev w =
      (get_event_by_id ev.id w.tables ≡ some (sent_row ev broker_name))
      × Holds (sent_document ev broker_name) w.docs

  abbrev pub IsDelivered : World X → Record → Type 0
  IsDelivered w r =
      (ev : MessageCreated) × (decode r.value ≡ some ev) × (event ev.id ≡ ev) × IsStored ev w

  unfoldable pub AreDelivered : World X → List Record → Type 0
  AreDelivered w [] = Unit {0}
  AreDelivered w (r ∷ rs) = IsDelivered w r × AreDelivered w rs

  -- The record carries the event of its id.
  abbrev CarriesOwn : Record → Type 0
  CarriesOwn r = (ev : MessageCreated) → decode r.value ≡ some ev → event ev.id ≡ ev

  unfoldable pub CarryOwn : List Fetch → Type 0
  CarryOwn [] = Unit {0}
  CarryOwn (ctx_done ∷ fs) = CarryOwn fs
  CarryOwn (fetch_failed ∷ fs) = CarryOwn fs
  CarryOwn (fetched r answer ∷ fs) = CarriesOwn r × CarryOwn fs

  -- An event of the same broker is the one of its id.
  same_document :
      (ev other : MessageCreated)
      → event ev.id ≡ ev
      → event other.id ≡ other
      → other.id ≡ ev.id
      → other ≡ ev
  same_document ev other e f h = sym f ∙ ap event h ∙ e

  save-keeps :
      (ev other : MessageCreated) (f : BatchFate) (t : Tables)
      → event ev.id ≡ ev
      → event other.id ≡ other
      → get_event_by_id ev.id t ≡ some (sent_row ev broker_name)
      → get_event_by_id ev.id (save day f other broker_name t).1 ≡ some (sent_row ev broker_name)
  save-keeps ev other f t e g h =
      get_event_by_id-save day broker_name ev.id f other t
      ∙ elim (Bool-cases (was_applied f && other.id == ev.id)) [
        | inl b ↦
            rw
              (
                b,
                same_document ev other e g
                    ((==_iff other.id ev.id).0 (and-right (was_applied f) b)),
              )
              refl
        | inr b ↦ rw b h
      ]
    where
      and-right : (a : Bool) {b : Bool} → (a && b) ≡ true → b ≡ true
      and-right true h = h
      and-right false h = absurd (ground arith)

  save-found :
      (ev : MessageCreated) (f : BatchFate) (t : Tables)
      → (save day f ev broker_name t).0 ≡ none
      → get_event_by_id ev.id (save day f ev broker_name t).1 ≡ some (sent_row ev broker_name)
  unfolding save
  save-found ev applied t h =
      get_event_by_id-write_batch day ev.id ev broker_name t ∙ rw ((==_iff ev.id ev.id).1 refl) refl
  save-found ev (refused n) t h = absurd (ground arith)
  save-found ev (unanswered n) t h = absurd (ground arith)

  -- What Save did, then the index.
  after_save-keeps :
      (ev other : MessageCreated) (w : World X) (r : Option ℕ × Tables)
      → event ev.id ≡ ev
      → event other.id ≡ other
      → get_event_by_id ev.id r.1 ≡ some (sent_row ev broker_name)
      → Holds (sent_document ev broker_name) w.docs
      → IsStored ev
          (after_save
            (sinks day put broker_name)
            broker_name
            other
            (saved day put broker_name r w)).1
  unfolding after_save
  after_save-keeps ev other w (some n, t) e f h k = (h, k)
  after_save-keeps ev other w (none, t) e f h k = (
    h,
    law.kept (sent_document ev broker_name) (sent_document other broker_name) w.docs
        (λ i. ap (λ v. sent_document v broker_name) (same_document ev other e f i)) k,
  )

  after_save-IsStored :
      (ev : MessageCreated) (w : World X) (r : Option ℕ × Tables)
      → (r.0 ≡ none → get_event_by_id ev.id r.1 ≡ some (sent_row ev broker_name))
      → (after_save (sinks day put broker_name) broker_name ev (saved day put broker_name r w)).0
        ≡ none
      → IsStored ev
          (after_save (sinks day put broker_name) broker_name ev (saved day put broker_name r w)).1
  unfolding after_save
  after_save-IsStored ev w (some n, t) g h = absurd (ground arith)
  after_save-IsStored ev w (none, t) g h =
      (g refl, law.held (sent_document ev broker_name) w.docs h)

  handle-keeps :
      (ev other : MessageCreated) (w : World X)
      → event ev.id ≡ ev
      → event other.id ≡ other
      → IsStored ev w
      → IsStored ev (handle day put broker_name other w).1
  unfolding handle_event save_event
  handle-keeps ev other w e f (h, k) =
      after_save-keeps ev other w (save day (next_fate w.fates) other broker_name w.tables) e f
        (save-keeps ev other (next_fate w.fates) w.tables e f h) k

  handle-stores :
      (ev : MessageCreated) (w : World X)
      → (handle day put broker_name ev w).0 ≡ none
      → IsStored ev (handle day put broker_name ev w).1
  unfolding handle_event save_event
  handle-stores ev w h =
      after_save-IsStored ev w (save day (next_fate w.fates) ev broker_name w.tables)
        (save-found ev (next_fate w.fates) w.tables) h

  handle-AreDelivered :
      (other : MessageCreated) (w : World X) (rs : List Record)
      → event other.id ≡ other
      → AreDelivered w rs
      → AreDelivered (handle day put broker_name other w).1 rs
  unfolding AreDelivered
  handle-AreDelivered other w [] f h = h
  handle-AreDelivered other w (r ∷ rs) f ((ev, d, e, k), h) =
      ((ev, d, e, handle-keeps ev other w e f k), handle-AreDelivered other w rs f h)

  -- What a reader committed is delivered.
  abbrev pub IsFaithful : Consumer (World X) → Type 0
  IsFaithful c = AreDelivered c.world c.committed

  after_handle-IsFaithful :
      (r : Record) (answer : Option ℕ) (o : Option ℕ × World X) (c : Consumer (World X))
      (ev : MessageCreated)
      → decode r.value ≡ some ev
      → event ev.id ≡ ev
      → AreDelivered o.1 c.committed
      → (o.0 ≡ none → IsStored ev o.1)
      → IsFaithful (after_handle r answer o c).1
  unfolding after_handle commit_record AreDelivered
  after_handle-IsFaithful r answer (some n, w) c ev d e h g = h
  after_handle-IsFaithful r (some n) (none, w) c ev d e h g = h
  after_handle-IsFaithful r none (none, w) c ev d e h g = ((ev, d, e, g refl), h)

  after_decode-IsFaithful :
      (r : Record) (answer : Option ℕ) (o : Option MessageCreated) (c : Consumer (World X))
      → decode r.value ≡ o
      → CarriesOwn r
      → IsFaithful c
      → IsFaithful (after_decode (handle day put broker_name) r answer o c).1
  unfolding after_decode
  after_decode-IsFaithful r answer none c d own h = h
  after_decode-IsFaithful r answer (some ev) c d own h =
      after_handle-IsFaithful r answer (handle day put broker_name ev c.world) c ev d (own ev d)
        (handle-AreDelivered ev c.world c.committed (own ev d) h) (handle-stores ev c.world)

  goes_on :
      (fs : List Fetch) (o : Option Stop × Consumer (World X))
      → IsFaithful o.1
      → ((c : Consumer (World X))
          → IsFaithful c
          → IsFaithful (consume decode (handle day put broker_name) fs c).1)
      → IsFaithful
          (or_continue decode
            (handle day put broker_name)
            o
            (λ c'. consume decode (handle day put broker_name) fs c')).1
  goes_on fs (some s, c) h g = h
  goes_on fs (none, c) h g = g c h

  -- From Kafka to the stores: with an index that holds what was put under its id, and fetched
  -- records of which those with the same id carry the same event: if it was so before, every
  -- record that the Kafka reader has committed with the handler of the consumer carries an event
  -- that Cassandra finds by its id, as it was sent but for its time, which is cut to
  -- milliseconds, and that the index holds as it was sent, whichever batches are refused or
  -- applied without an answer, and whatever else fails or is delivered again.
  pub consume-IsFaithful :
      (fs : List Fetch) (c : Consumer (World X))
      → CarryOwn fs
      → IsFaithful c
      → IsFaithful (consume decode (handle day put broker_name) fs c).1
  unfolding consume consume_record CarryOwn
  consume-IsFaithful [] c own h = h
  consume-IsFaithful (ctx_done ∷ fs) c own h = h
  consume-IsFaithful (fetch_failed ∷ fs) c own h = consume-IsFaithful fs c own h
  consume-IsFaithful (fetched r answer ∷ fs) c (e, own) h =
      goes_on fs (consume_record decode (handle day put broker_name) r answer c)
        (after_decode-IsFaithful r answer (decode r.value) c refl e h)
        (λ c' h'. consume-IsFaithful fs c' own h')
