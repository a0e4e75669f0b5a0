-- ===== src/Messaging.antt =====
-- internal/domain/messaging/message.go and internal/application/messages/service.go: the message, the
-- event of its creation, the validation of a text and the service that HTTP and gRPC share.
pub mod Validation
use Prim.Native.String.{String}
use otus_app.Base.{ℕ, Bool, Option, none, some, List, if◌then◌else◌}
use otus_app.Text.{Text, codes, is_empty}
use otus_app.Text.Trim.{trim_space}

-- The errors that the layers below the handlers tell apart, and a number for all others.
pub data Error : Type 0 where
  empty_text idempotency_conflict lease_lost : Error
  other : ℕ → Error

pub data Result {ℓ} (A : Type ℓ) : Type ℓ where
  ok : A → Result A
  err : Error → Result A

pub record Message : Type 0 where
  pub id : ℕ
  pub text : Text
  pub checksum : Text
  pub checksum_ok : Bool
  pub created_at : ℕ

pub record MessageCreated : Type 0 where
  pub id : ℕ
  pub text : Text
  pub checksum : Text
  pub created_at : ℕ
  pub producer : Text

-- `none` is a valid text.
unfoldable pub validate_text : Text → Option Error
validate_text text = if is_empty (trim_space text) then some empty_text else none

unfoldable pub created_event : Message → MessageCreated
created_event m = record {
  id = m.id;
  text = m.text;
  checksum = m.checksum;
  created_at = m.created_at;
  producer = codes "otus-app";
}

-- The ports of the service; `ctx` is the world with the deadline that the service sets, in seconds.
pub record Store (W : Type 0) : Type 0 where
  pub create : ℕ → Text → Text → W → Result Message × W
  pub list : ℕ → W → Result (List Message) × W

module _ {W : Type 0} (store : Store W) where
  unfoldable pub service_create : Text → Text → W → Result Message × W
  unfolding validate_text
  service_create text key w = elim (validate_text text) [
    | some e ↦ (err e, w)
    | none ↦ store.create 5 text key w
  ]

  unfoldable pub service_list : W → Result (List Message) × W
  service_list w = store.list 3 w
