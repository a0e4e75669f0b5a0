-- ===== src/Messaging/Validation.antt =====
-- Which texts are accepted.
use otus_app.Base.{◌≡◌, ◌↔◌, Bool-cases, true, false, none, some, inl, inr, arith}
use otus_app.Text.{Text, is_empty}
use otus_app.Text.Trim.{is_blank, trim_space-eq-nil, trim_space-ne-nil}
use otus_app.Messaging.{Store, err, empty_text, validate_text, service_create}

pub validate_text-blank : (t : Text) → is_blank t ≡ true → validate_text t ≡ some empty_text
unfolding validate_text is_empty
validate_text-blank t h = rw (trim_space-eq-nil t h)

pub validate_text_of_visible : (t : Text) → is_blank t ≡ false → validate_text t ≡ none
unfolding validate_text is_empty
validate_text_of_visible t h = let (x, u, e) = trim_space-ne-nil t h in rw e

-- A text is accepted exactly when some character of it is no white space.
pub validate_text_iff : (t : Text) → (validate_text t ≡ none) ↔ (is_blank t ≡ false)
validate_text_iff t = (accepted t, validate_text_of_visible t)
  where
    accepted : (t : Text) → validate_text t ≡ none → is_blank t ≡ false
    accepted t h = elim (Bool-cases (is_blank t)) [
      | inl b ↦ absurd (cc (validate_text-blank t b))
      | inr b ↦ b
    ]

-- The service refuses a blank text with ErrEmptyText and does not call the store.
pub service_create-blank :
    {W : Type 0} (store : Store W) (text key : Text) (w : W)
    → is_blank text ≡ true
    → service_create store text key w ≡ (err empty_text, w)
unfolding service_create
service_create-blank store text key w h = ground (arith, validate_text-blank text h)

-- A valid message is handed to the store.
pub service_create-valid :
    {W : Type 0} (store : Store W) (text key : Text) (w : W)
    → validate_text text ≡ none
    → service_create store text key w ≡ store.create 5 text key w
unfolding service_create
service_create-valid store text key w h = ground (arith, h)
