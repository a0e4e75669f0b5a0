-- ===== src/Hdfs/Writing.antt =====
-- internal/hdfsstore/hdfsstore.go: Put and closeWithRetry over the model of Policy.Do. The client of HDFS and
-- its writer are parameters.
use otus_app.Base.{ℕ, ◌*◌, ◌≡◌, refl, Bool, Option, none, some, ap, sym, ◌∙◌}
use otus_app.Base.Int.{pos}
use otus_app.Text.{Text}
use otus_app.Text.Path.{path_base}
use otus_app.Hdfs.{File}
use otus_app.Resilience.Jitter.{second, millisecond}
use otus_app.Resilience.Retry.{Policy, Runtime, do_policy}
use otus_app.Resilience.Retry.Budget.{DoneHasError, do_policy_total, do_policy_success}

-- Remove and CreateFile at a path; io.Copy of bytes to the writer, with how many were written; and Close of
-- the writer. Errors are numbers, of which IsErrReplicating takes some.
pub record Writer (W : Type 0) : Type 0 where
  pub remove : Text → W → W
  pub create_file : Text → W → Option ℕ × W
  pub copy : Text → W → (ℕ × Option ℕ) × W
  pub close : W → Option ℕ × W
  pub is_replicating : ℕ → Bool

pub data Stored : Type 0 where
  not_configured : Stored
  failed : ℕ → Stored
  file : File → Stored

abbrev pub close_policy : Policy
close_policy = record { attempts = pos 8; base = pos (50 * millisecond); limit = pos (4 * second) }

-- The loop of the policy does not run out of its fuel: Retry.Budget.do_policy_total.
abbrev pub or_open : {W : Type 0} → W → Option (Option ℕ × W) → Option ℕ × W
or_open w none = (some 0, w)
or_open w (some r) = r

module _ {W : Type 0} (client : Writer W) (rt : Runtime ℕ W) where
  unfoldable pub close_with_retry : W → Option ℕ × W
  close_with_retry w = or_open w (do_policy rt close_policy client.is_replicating client.close w)

  unfoldable pub after_close : File → Option ℕ × W → Stored × W
  after_close f (some e, w) = (failed e, w)
  after_close f (none, w) = (file f, w)

  -- From io.Copy on.
  unfoldable pub after_copy : Text → Text → (ℕ × Option ℕ) × W → Stored × W
  after_copy name target ((written, some e), w) = (failed e, (client.close w).1)
  after_copy name target ((written, none), w) =
      after_close (record { name = path_base name; path = target; size = written })
        (close_with_retry w)

  unfoldable pub after_create : Text → Text → Text → Option ℕ × W → Stored × W
  after_create name target bytes (some e, w) = (failed e, w)
  after_create name target bytes (none, w) = after_copy name target (client.copy bytes w)

  -- Put; no function for the full path is the nil receiver.
  unfoldable pub put_file : Option (Text → Text) → Text → Text → W → Stored × W
  put_file none name bytes w = (not_configured, w)
  put_file (some full) name bytes w =
      after_create name (full name) bytes
        (client.create_file (full name) (client.remove (full name) w))

  -- The file is complete: io.Copy wrote as many bytes as its size says, without an error, and the last call of
  -- Close succeeded.
  pub IsComplete : Text → Stored → W → Type 0
  IsComplete bytes not_configured w = Unit {0}
  IsComplete bytes (failed e) w = Unit {0}
  IsComplete bytes (file f) w =
      ((v : W) × ((client.copy bytes v).0 ≡ (f.size, none)))
      × ((u : W) × (client.close u ≡ (none, w)))

  or_open-closed :
      (w : W) (o : Option (Option ℕ × W)) (r : Option ℕ × W) → o ≡ some r → or_open w o ≡ r
  or_open-closed w o r h = rw h refl

  close_with_retry-closed :
      (w : W)
      → DoneHasError rt
      → (r : Option ℕ × W) → close_with_retry w ≡ r
      → r.0 ≡ none
      → (u : W) × (client.close u ≡ (none, r.1))
  unfolding close_with_retry
  close_with_retry-closed w law r q h =
      let ((o, w'), e) = do_policy_total rt close_policy client.is_replicating client.close w in
      let same = sym (or_open-closed w _ (o, w') e) ∙ q in
      do_policy_success rt close_policy client.is_replicating client.close w r.1 law
        (e ∙ ap some (same ∙ closed r h))
    where
      closed : (r : Option ℕ × W) → r.0 ≡ none → r ≡ (none, r.1)
      closed (o, w) h = rw h refl

  after_close-IsComplete :
      (bytes : Text) (f : File) (r : Option ℕ × W)
      → ((v : W) × ((client.copy bytes v).0 ≡ (f.size, none)))
      → (r.0 ≡ none → (u : W) × (client.close u ≡ (none, r.1)))
      → (let s = after_close f r in IsComplete bytes s.0 s.1)
  unfolding after_close IsComplete
  after_close-IsComplete bytes f (some e, w) c h = tt
  after_close-IsComplete bytes f (none, w) c h = (c, h refl)

  after_copy-IsComplete :
      (name target bytes : Text) (v : W) (r : (ℕ × Option ℕ) × W)
      → DoneHasError rt
      → client.copy bytes v ≡ r
      → (let s = after_copy name target r in IsComplete bytes s.0 s.1)
  unfolding after_copy
  after_copy-IsComplete name target bytes v ((n, some e), w) law h = unfold IsComplete in tt
  after_copy-IsComplete name target bytes v ((n, none), w) law h =
      after_close-IsComplete bytes (record { name = path_base name; path = target; size = n })
        (close_with_retry w) (v, ap (λ p. p.0) h)
        (close_with_retry-closed w law (close_with_retry w) refl)

  after_create-IsComplete :
      (name target bytes : Text) (r : Option ℕ × W)
      → DoneHasError rt
      → (let s = after_create name target bytes r in IsComplete bytes s.0 s.1)
  unfolding after_create
  after_create-IsComplete name target bytes (some e, w) law = unfold IsComplete in tt
  after_create-IsComplete name target bytes (none, w) law =
      after_copy-IsComplete name target bytes w (client.copy bytes w) law refl

  -- Put to HDFS reports a file only if io.Copy wrote as many bytes as its size says, without an
  -- error, and the last call of Close, of the up to eight that closeWithRetry makes, succeeded,
  -- with a context that has an error once it is done.
  pub put_file-IsComplete :
      (full : Option (Text → Text)) (name bytes : Text) (w : W)
      → DoneHasError rt
      → (let s = put_file full name bytes w in IsComplete bytes s.0 s.1)
  unfolding put_file
  put_file-IsComplete none name bytes w law = unfold IsComplete in tt
  put_file-IsComplete (some full) name bytes w law =
      after_create-IsComplete name (full name) bytes
        (client.create_file (full name) (client.remove (full name) w)) law
