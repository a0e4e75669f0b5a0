-- ===== src/Search/Ready.antt =====
-- After ensure the index exists, whoever created it.
use otus_app.Base.{ℕ, ◌≡◌, refl, Bool, true, false, none, arith, inl, inr, Bool-cases, ◌==◌}
use otus_app.Text.{Text}
use otus_app.Search.{
  Call, no_answer, answer, Client, contains, read_body, already_exists, created, after_exists,
  ensure,
}

-- What the documentation of the indices API says, for a predicate "the index of this name is there": Exists
-- answers 200 only for an index that is there; Create that is not an error, or that says that the name is
-- taken, leaves it there.
pub record Truthful {W : Type 0} (client : Client W) (Has : Text → W → Type 0) : Type 0 where
  pub found :
      (name : Text) (w w' : W) (status : ℕ) (is_error : Bool) (body : Text)
      → client.exists name w ≡ (answer status is_error body, w')
      → (status == 200) ≡ true
      → Has name w'
  pub made :
      (name mapping : Text) (w w' : W) (status : ℕ) (body : Text)
      → client.create name mapping w ≡ (answer status false body, w')
      → Has name w'
  pub taken :
      (name mapping : Text) (w w' : W) (status : ℕ) (body : Text)
      → client.create name mapping w ≡ (answer status true body, w')
      → contains (read_body body) already_exists ≡ true
      → Has name w'

module _ {W : Type 0} (client : Client W) (Has : Text → W → Type 0) (law : Truthful client Has)
    (name mapping : Text) where
  after_create :
      (w : W) (r : Call × W)
      → client.create name mapping w ≡ r
      → (created name r).0 ≡ none
      → Has name (created name r).1
  unfolding created
  after_create w (no_answer e, w') h k = absurd (ground arith)
  after_create w (answer status true body, w') h k =
      elim (Bool-cases (contains (read_body body) already_exists)) [
        | inl b ↦ law.taken name mapping w w' status body h b
        | inr b ↦ absurd (ground arith)
      ]
  after_create w (answer status false body, w') h k = law.made name mapping w w' status body h

  after_lookup :
      (w : W) (r : Call × W)
      → client.exists name w ≡ r
      → (after_exists client name mapping r).0 ≡ none
      → Has name (after_exists client name mapping r).1
  unfolding after_exists
  after_lookup w (no_answer e, w') h k = absurd (ground arith)
  after_lookup w (answer status is_error body, w') h k = elim (Bool-cases (status == 200)) [
    | inl b ↦ rw b (law.found name w w' status is_error body h b)
    | inr b ↦ rw b (after_create w' (client.create name mapping w') refl (ground arith))
  ]

  -- With a client that is truthful about its answers on indices: when ensure returns no error,
  -- the index is there, also when another instance created it between Exists and Create.
  pub ensure-Exists :
      (w : W) → (ensure client name mapping w).0 ≡ none → Has name (ensure client name mapping w).1
  unfolding ensure
  ensure-Exists w h = after_lookup w (client.exists name w) refl h
