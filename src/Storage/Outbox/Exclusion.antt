-- ===== src/Storage/Outbox/Exclusion.antt =====
-- While a lease runs, it keeps other workers away, whatever they do.
use otus_app.Base.{ℕ, ◌≤◌, ◌<◌, ◌≡◌, ◌≢◌, none, some, List, [], ◌∷◌}
use otus_app.Text.{Text}
use otus_app.Storage.Tables.{Task}
use otus_app.Storage.Outbox.Histories.{Statement, claims, completes, retries, inserts}

-- A statement that another worker makes while the lease of this token runs: a claim before its end, or the
-- end of a delivery with another token, since every claim draws a new one. Create may insert rows.
abbrev IsForeign : Text → ℕ → Statement → Type 0
IsForeign token end (claims fate target token' now lease) = now < end
IsForeign token end (completes fate now d) = d.token ≢ token
IsForeign token end (retries fate now delay d) = d.token ≢ token
IsForeign token end (inserts id target payload now) = Unit {0}

unfoldable pub AreForeign : Text → ℕ → List Statement → Type 0
AreForeign token end [] = Unit {0}
AreForeign token end (s ∷ ss) = IsForeign token end s × AreForeign token end ss

-- The row is leased to this token until this time or longer, and is not delivered.
abbrev IsLeased : Text → ℕ → Task → Type 0
IsLeased token end x =
    (x.lease_token ≡ some token) × (end ≤ x.available_at) × (x.delivered_at ≡ none)
