-- ===== src/Broker/Kafka/Commits.antt =====
-- The committed records are those that the handler accepted, in the order of the partition and without a
-- gap.
use otus_app.Base.{ℕ, ◌≡◌, refl, List, [], ◌∷◌, ◌++◌, Option, none, some, ap, ◌∙◌, ◌⊎◌, inl, inr}
use otus_app.Text.{Text}
use otus_app.Messaging.{MessageCreated}
use otus_app.Broker.Kafka.{
  Record, Fetch, fetched, fetch_failed, ctx_done, Stop, cancelled, malformed, handle_failed,
  commit_failed, Consumer, commit_record, after_handle, after_decode, consume_record, or_continue,
  consume,
}

-- The records among the answers of FetchMessage before the context is done.
unfoldable pub records : List Fetch → List Record
records [] = []
records (ctx_done ∷ fs) = []
records (fetch_failed ∷ fs) = records fs
records (fetched r answer ∷ fs) = r ∷ records fs

-- Records put on a list one after the other.
abbrev pub push_all : List Record → List Record → List Record
push_all [] acc = acc
push_all (r ∷ rs) acc = push_all rs (r ∷ acc)

-- The outcome of a loop over these records, from one consumer to another: a first part of them was handled
-- and committed; then the loop was cancelled after all of them, or it stopped at the next record, which
-- was not committed and was handled only if its commit failed.
module _ {W : Type 0} where
  pub data Outcome (c : Consumer W) : List Record → Stop → Consumer W → Type 0 where
    all :
        (rs : List Record) (c' : Consumer W)
        → c'.handled ≡ push_all rs c.handled
        → c'.committed ≡ push_all rs c.committed
        → Outcome c rs cancelled c'
    uncommitted :
        (first rest : List Record) (r : Record) (e : ℕ) (c' : Consumer W)
        → c'.handled ≡ r ∷ push_all first c.handled
        → c'.committed ≡ push_all first c.committed
        → Outcome c (first ++ r ∷ rest) (commit_failed e) c'
    unhandled :
        (first rest : List Record) (r : Record) (s : Stop) (c' : Consumer W)
        → (s ≡ malformed) ⊎ ((e : ℕ) × (s ≡ handle_failed e))
        → c'.handled ≡ push_all first c.handled
        → c'.committed ≡ push_all first c.committed
        → Outcome c (first ++ r ∷ rest) s c'

  -- One more record in front.
  outcome_next :
      (r : Record) (c c₁ : Consumer W) (rs : List Record) (s : Stop) (c' : Consumer W)
      → c₁.handled ≡ r ∷ c.handled
      → c₁.committed ≡ r ∷ c.committed
      → Outcome c₁ rs s c'
      → Outcome c (r ∷ rs) s c'
  outcome_next r c c₁ _ _ _ h k (all rs c' a b) =
      all (r ∷ rs) c' (a ∙ ap (push_all rs) h) (b ∙ ap (push_all rs) k)
  outcome_next r c c₁ _ _ _ h k (uncommitted first rest q e c' a b) =
      uncommitted (r ∷ first) rest q e c' (a ∙ ap (λ l. q ∷ push_all first l) h)
        (b ∙ ap (push_all first) k)
  outcome_next r c c₁ _ _ _ h k (unhandled first rest q s c' t a b) =
      unhandled (r ∷ first) rest q s c' t (a ∙ ap (push_all first) h) (b ∙ ap (push_all first) k)

module _ {W : Type 0} (decode : Text → Option MessageCreated)
    (handle : MessageCreated → W → Option ℕ × W) where
  outcome_handled :
      (r : Record) (answer : Option ℕ) (fs : List Fetch) (o : Option ℕ × W) (c : Consumer W)
      → ((c₁ : Consumer W)
          → (let x = consume decode handle fs c₁ in Outcome c₁ (records fs) x.0 x.1))
      → (let x =
            or_continue decode handle
              (after_handle r answer o c)
              (λ c'. consume decode handle fs c') in
          Outcome c (r ∷ records fs) x.0 x.1)
  unfolding after_handle commit_record
  outcome_handled r answer fs (some e, w) c ih =
      unhandled [] (records fs) r (handle_failed e) _ (inr (e, refl)) refl refl
  outcome_handled r (some e) fs (none, w) c ih = uncommitted [] (records fs) r e _ refl refl
  outcome_handled r none fs (none, w) c ih = outcome_next r c _ (records fs) _ _ refl refl (ih _)

  outcome_decoded :
      (r : Record) (answer : Option ℕ) (fs : List Fetch) (o : Option MessageCreated)
      (c : Consumer W)
      → ((c₁ : Consumer W)
          → (let x = consume decode handle fs c₁ in Outcome c₁ (records fs) x.0 x.1))
      → (let x =
            or_continue decode handle
              (after_decode handle r answer o c)
              (λ c'. consume decode handle fs c') in
          Outcome c (r ∷ records fs) x.0 x.1)
  unfolding after_decode
  outcome_decoded r answer fs none c ih =
      unhandled [] (records fs) r malformed _ (inl refl) refl refl
  outcome_decoded r answer fs (some ev) c ih = outcome_handled r answer fs (handle ev c.world) c ih

  -- Whatever the client, the decoder and the handler answer, Consume handles and commits a first
  -- part of the fetched records, in order and without a gap. It then was cancelled after all of
  -- them, or it stopped at the next record, which is not committed, and which the handler
  -- accepted only if its commit failed.
  pub consume-Outcome :
      (fs : List Fetch) (c : Consumer W)
      → (let x = consume decode handle fs c in Outcome c (records fs) x.0 x.1)
  unfolding consume records consume_record
  consume-Outcome [] c = all [] c refl refl
  consume-Outcome (ctx_done ∷ fs) c = all [] c refl refl
  consume-Outcome (fetch_failed ∷ fs) c = consume-Outcome fs c
  consume-Outcome (fetched r answer ∷ fs) c =
      outcome_decoded r answer fs (decode r.value) c (consume-Outcome fs)
