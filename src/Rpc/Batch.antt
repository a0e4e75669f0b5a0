-- ===== src/Rpc/Batch.antt =====
-- What BatchCreate leaves in the store, whatever its answer.
use otus_app.Base.{
  ℕ, ◌+◌, ◌%◌, ◌^◌, ◌<◌, ltb, ◌≡◌, refl, true, false, List, [], ◌∷◌, ◌++◌, Option, none, some,
  arith, inl, inr, ◌⊎◌, ap, Bool-cases, length,
}
use otus_app.Text.{Text, is_empty}
use otus_app.Text.Trim.{trim_space}
use otus_app.Messaging.{Message, Store, Result, ok, err, Error, service_create}
use otus_app.Rpc.{
  Server, Reply, success, failure, Status, batch_create, batch_next, summary, internal, not_saved,
  invalid_argument, text_required, stream_failed, to_int32, send_and_close,
}
use otus_app.Base.Int.{ℤ, pos, negsuc}
use mathlib.Core.List.{append_assoc, append-nil}

module _ {W : Type 0} (store : Store W) where
  -- The texts are created one after the other, each exactly once, with these identifiers.
  pub data Creates : List Text → W → List ℕ → W → Type 0 where
    done : (w : W) → Creates [] w [] w
    next :
        {text : Text} {texts : List Text} {ids : List ℕ} {m : Message} (w w' w'' : W)
        → is_empty (trim_space text) ≡ false
        → service_create store text [] w ≡ (ok m, w')
        → Creates texts w' ids w''
        → Creates (text ∷ texts) w (m.id ∷ ids) w''

  -- Why the loop stopped at the remaining texts.
  pub data Stops : List Text → Option ℕ → W → W → Status → Type 0 where
    recv_failed : (e : ℕ) (w : W) → Stops [] (some e) w w (stream_failed e)
    blank :
        (text : Text) (texts : List Text) (end : Option ℕ) (w : W)
        → is_empty (trim_space text) ≡ true
        → Stops (text ∷ texts) end w w (invalid_argument text_required)
    create_failed :
        (text : Text) (texts : List Text) (end : Option ℕ) (w w' : W) (e : Error)
        → service_create store text [] w ≡ (err e, w')
        → Stops (text ∷ texts) end w w' (internal not_saved)

  -- The integer of [-2^31, 2^31) that is congruent to a number modulo 2^32.
  abbrev pub IsInt32Of : ℕ → ℤ → Type 0
  IsInt32Of k (pos m) = (m < 2 ^ 31) × (m ≡ k % 2 ^ 32)
  IsInt32Of k (negsuc m) = (m < 2 ^ 31) × (k % 2 ^ 32 + m + 1 ≡ 2 ^ 32)

  to_int32-IsInt32Of : (k : ℕ) → IsInt32Of k (to_int32 k)
  unfolding to_int32
  to_int32-IsInt32Of k = elim (Bool-cases (ltb (k % 2 ^ 32) (2 ^ 31))) [
    | inl b ↦ rw b (ground arith, refl)
    | inr b ↦ rw b (ground arith, ground arith)
  ]

  -- The answer at the end of the stream: the error of SendAndClose, or the summary.
  abbrev pub Answered : Option ℕ → List ℕ → Reply (ℤ × List ℕ) → Type 0
  Answered none ids reply = (n : ℤ) × (reply ≡ success (n, ids)) × IsInt32Of (length ids) n
  Answered (some e) ids reply = reply ≡ failure (stream_failed e)

  send_and_close-Answered :
      (closed : Option ℕ) (ids : List ℕ) → Answered closed ids (send_and_close closed ids)
  unfolding send_and_close summary
  send_and_close-Answered none ids = (to_int32 (length ids), refl, to_int32-IsInt32Of (length ids))
  send_and_close-Answered (some e) ids = refl

  -- The answer and the final state of a batch that began with some identifiers.
  abbrev pub Outcome :
      List Text → Option ℕ → Option ℕ → List ℕ → Server W → Reply (ℤ × List ℕ) → Server W → Type 0
  Outcome texts end closed before s reply s' =
      ((ids : List ℕ) × Answered closed (before ++ ids) reply
        × (end ≡ none)
        × Creates texts s.world ids s'.world
        × (s'.created ≡ s.created + length ids))
      ⊎ ((ids : List ℕ) × (first rest : List Text) × (w : W) × (e : Status) × (reply ≡ failure e)
          × (texts ≡ first ++ rest)
          × Creates first s.world ids w
          × Stops rest end w s'.world e
          × (s'.created ≡ s.created + length ids))

  outcome_next :
      (text : Text) (texts : List Text) (end closed : Option ℕ) (before : List ℕ) (s : Server W)
      (m : Message) (w : W) (reply : Reply (ℤ × List ℕ)) (s' : Server W)
      → is_empty (trim_space text) ≡ false
      → service_create store text [] s.world ≡ (ok m, w)
      → Outcome texts end closed
          (before ++ m.id ∷ [])
          (record s { world = w; created = s.created + 1 })
          reply
          s'
      → Outcome (text ∷ texts) end closed before s reply s'
  outcome_next text texts end closed before s m w reply s' b c (inl (ids, e, f, g, h)) =
      inl (m.id ∷ ids, rw (append_assoc) at e, f, next s.world w s'.world b c g, omega (arith, h))
  outcome_next text texts end closed before s m w reply s' b c
        (inr (ids, first, rest, v, e, f, g, h, i, j)) =
      inr (
        m.id ∷ ids,
        text ∷ first,
        rest,
        v,
        e,
        f,
        ap (λ t. text ∷ t) g,
        next s.world w v b c h,
        i,
        omega (arith, j),
      )

  outcome_result :
      (text : Text) (texts : List Text) (end closed : Option ℕ) (before : List ℕ) (s : Server W)
      (o : Result Message × W)
      → is_empty (trim_space text) ≡ false
      → service_create store text [] s.world ≡ o
      → ((ids : List ℕ) (s' : Server W)
          → Outcome texts end closed ids s'
              (batch_create store texts end closed ids s').0
              (batch_create store texts end closed ids s').1)
      → (let r =
            batch_next o s (λ id s'. batch_create store texts end closed (before ++ id ∷ []) s') in
          Outcome (text ∷ texts) end closed before s r.0 r.1)
  unfolding batch_next
  outcome_result text texts end closed before s (err e, w) b c ih = inr (
    [],
    [],
    text ∷ texts,
    s.world,
    internal not_saved,
    refl,
    refl,
    done s.world,
    create_failed text texts end s.world w e c,
    omega arith,
  )
  outcome_result text texts end closed before s (ok m, w) b c ih =
      outcome_next text texts end closed before s m w _ _ b c
        (ih (before ++ m.id ∷ []) (record s { world = w; created = s.created + 1 }))

  -- Whatever the store and the stream answer: BatchCreate either created all texts in order, each
  -- once, and then answers with the error of SendAndClose, if it gives one, and otherwise with
  -- the identifiers after those it began with and their number, wrapped to an int32; or it ends
  -- before that with an error, and the texts before the one that failed stay created. In both
  -- cases the metric counts exactly the created ones.
  pub batch_create-Outcome :
      (texts : List Text) (end closed : Option ℕ) (before : List ℕ) (s : Server W)
      → (let r = batch_create store texts end closed before s in
          Outcome texts end closed before s r.0 r.1)
  unfolding batch_create
  batch_create-Outcome [] none closed before s = inl (
    [],
    rw (append-nil before) (send_and_close-Answered closed before),
    refl,
    done s.world,
    omega arith,
  )
  batch_create-Outcome [] (some e) closed before s = inr (
    [],
    [],
    [],
    s.world,
    stream_failed e,
    refl,
    refl,
    done s.world,
    recv_failed e s.world,
    omega arith,
  )
  batch_create-Outcome (text ∷ texts) end closed before s =
      elim (Bool-cases (is_empty (trim_space text))) [
        | inl b ↦ rw b (
            inr (
              [],
              [],
              text ∷ texts,
              s.world,
              invalid_argument text_required,
              refl,
              refl,
              done s.world,
              blank text texts end s.world b,
              omega arith,
            ))
        | inr b ↦ rw b (
            outcome_result text texts end closed before s _ b refl
              (batch_create-Outcome texts end closed))
      ]
