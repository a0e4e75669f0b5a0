-- ===== src/Storage/Tables.antt =====
-- The tables `messages` and `message_outbox`, and how a statement or a commit can fail.
use otus_app.Base.{
  ℕ, ◌+◌, Bool, true, false, ◌&&◌, Option, none, some, List, [], ◌∷◌, ◌==◌, if◌then◌else◌,
}
use otus_app.Text.{Text, text_eq}
use otus_app.Messaging.{Error, MessageCreated}

-- A row of `messages`.
pub record Row : Type 0 where
  pub id : ℕ
  pub text : Text
  pub text_hash : Text
  pub idem_key : Option Text
  pub created_at : ℕ

-- A row of `message_outbox`; the key is (message_id, target).
pub record Task : Type 0 where
  pub message_id : ℕ
  pub target : Text
  pub payload : Text
  pub created_at : ℕ
  pub available_at : ℕ
  pub lease_token : Option Text
  pub attempts : ℕ
  pub delivered_at : Option ℕ

-- Rows are listed from the newest to the oldest; `seq` is the BIGSERIAL sequence, which no rollback
-- sets back.
pub record Db : Type 0 where
  pub seq : ℕ
  pub messages : List Row
  pub outbox : List Task

-- The fate of a statement outside a transaction, or of a commit: it takes effect, it fails, or it
-- takes effect and the answer is lost.
pub data Fate : Type 0 where
  done : Fate
  refused : Error → Fate
  lost : Error → Fate

-- json.Marshal and json.Unmarshal of an event.
pub record Json : Type 0 where
  pub marshal : MessageCreated → Option Text
  pub unmarshal : Text → Option MessageCreated

-- Reading back what was written (documented by encoding/json for a struct of this shape).
abbrev pub RoundTrips : Json → Type 0
RoundTrips j =
    (ev : MessageCreated) (raw : Text)
    → Path (Option Text) (j.marshal ev) (some raw)
    → Path (Option MessageCreated) (j.unmarshal raw) (some ev)

abbrev pub is_some {ℓ} : {A : Type ℓ} → Option A → Bool
is_some none = false
is_some (some _) = true

-- column = value, where NULL equals nothing.
abbrev pub sql_eq : Option Text → Text → Bool
sql_eq none t = false
sql_eq (some s) t = text_eq s t

-- WHERE message_id=$1 AND target=$2
abbrev pub has_key : ℕ → Text → Task → Bool
has_key id target t = t.message_id == id && text_eq t.target target

-- The row of a key.
unfoldable pub find_task : ℕ → Text → List Task → Option Task
find_task id target [] = none
find_task id target (t ∷ ts) = if has_key id target t then some t else find_task id target ts

-- The row of an idempotency key.
unfoldable pub find_row : Text → List Row → Option Row
find_row key [] = none
find_row key (r ∷ rs) = if sql_eq r.idem_key key then some r else find_row key rs

-- UPDATE … SET … WHERE test, and the number of rows that it affects.
unfoldable pub update_where : (Task → Bool) → (Task → Task) → List Task → List Task
update_where test set [] = []
update_where test set (t ∷ ts) = (if test t then set t else t) ∷ update_where test set ts

unfoldable pub count_where : (Task → Bool) → List Task → ℕ
count_where test [] = 0
count_where test (t ∷ ts) = (if test t then 1 else 0) + count_where test ts
