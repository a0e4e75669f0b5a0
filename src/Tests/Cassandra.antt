-- ===== src/Tests/Cassandra.antt =====
-- The theorems on the event feed at concrete inputs.
use otus_app.Base.{◌≡◌, List, [], ◌∷◌, some, none, take}
use otus_app.Base.Int.{pos}
use otus_app.Text.{codes, text_eq}
use otus_app.Text.Decimal.{format_nat}
use otus_app.Messaging.{MessageCreated}
use otus_app.Cassandra.{
  Event, Tables, applied, unanswered, save, event_of, get_event_by_id, scan_events,
}
use otus_app.Cassandra.Feed.{save_again, matching, scan_events-matching}

abbrev created : MessageCreated
created = record { id = 4; text = codes "x"; checksum = []; created_at = 9; producer = [] }

abbrev no_rows : Tables
no_rows = record { feed = []; by_id = [] }

save_again_example :
    (let t' = (save format_nat applied created (codes "kafka") no_rows).1 in
      (save format_nat applied created (codes "kafka") t' ≡ (none, t'))
      × (save format_nat applied created
            (codes "kafka")
            (save format_nat (unanswered 3) created (codes "kafka") no_rows).1
          ≡ (none, t'))
      × (get_event_by_id 4 t' ≡ some (event_of created (codes "kafka"))))
save_again_example = save_again format_nat created (codes "kafka") 3 no_rows

abbrev three_rows : List Event
three_rows =
    event_of created (codes "a") ∷ event_of created (codes "b") ∷ event_of created (codes "c") ∷ []

scan_events-matching_example :
    scan_events (text_eq (codes "x")) (pos 2) three_rows
    ≡ (take 2 (matching (text_eq (codes "x")) three_rows), 3)
scan_events-matching_example = scan_events-matching (text_eq (codes "x")) 2 three_rows
