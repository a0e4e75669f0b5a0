-- ===== src/Blob.antt =====
-- internal/blobstore/blobstore.go: the range of Get, Versions and FindByTag over the answers of the S3
-- client, which are arguments.
pub mod Tagged
pub mod Objects
pub mod Reading
use otus_app.Base.{ℕ, Bool, true, false, ◌||◌, List, [], ◌∷◌, Option, none, some, if◌then◌else◌}
use otus_app.Base.Int.{ℤ, pos, ◌+ℤ◌, ◌-ℤ◌, leb_ℤ, wrap64}
use otus_app.Text.{Text, is_empty, text_eq, lookup}
use otus_app.Messaging.{Result, ok, err, Error}

abbrev pub Tags : Type 0
Tags = List (Text × Text)

pub record Blob : Type 0 where
  pub key : Text
  pub size : ℕ
  pub version_id : Text
  pub tags : Tags

-- The last offset of a range; 0 is no bound.
unfoldable pub last_offset : ℤ → ℤ → ℤ
last_offset offset length =
    if leb_ℤ length (pos 0) then pos 0 else wrap64 (wrap64 (offset +ℤ length) -ℤ pos 1)

-- The condition on the tags of one object; an empty value matches any.
unfoldable pub value_matches : Text → Option Text → Bool
value_matches value none = false
value_matches value (some v) = is_empty value || text_eq v value

-- One object of FindByTag, with the rest of the result; an object whose tags cannot be read is skipped.
unfoldable pub keep_tagged : Text → Text → Blob → Option Tags → List Blob → List Blob
keep_tagged key value obj none rest = rest
keep_tagged key value obj (some t) rest =
    if value_matches value (lookup key t) then (record obj { tags = t }) ∷ rest else rest

module _ (tags_of : Text → Option Tags) where
  unfoldable pub find_tagged : Text → Text → List Blob → List Blob
  find_tagged key value [] = []
  find_tagged key value (obj ∷ objs) =
      keep_tagged key value obj (tags_of obj.key) (find_tagged key value objs)

  -- FindByTag over the answer of List.
  unfoldable pub find_by_tag : Text → Text → Result (List Blob) → Result (List Blob)
  find_by_tag key value (err e) = err e
  find_by_tag key value (ok objs) = ok (find_tagged key value objs)

-- The loop of Versions: the listing is by prefix, and other keys are skipped. An entry is an error or an
-- object.
unfoldable pub add_version : Text → Blob → Result (List Blob) → Result (List Blob)
add_version key obj (err e) = err e
add_version key obj (ok rest) = ok (if text_eq obj.key key then obj ∷ rest else rest)

unfoldable pub versions_of : Text → List (Result Blob) → Result (List Blob)
versions_of key [] = ok []
versions_of key (err e ∷ entries) = err e
versions_of key (ok obj ∷ entries) = add_version key obj (versions_of key entries)
