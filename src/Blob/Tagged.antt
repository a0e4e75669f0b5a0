-- ===== src/Blob/Tagged.antt =====
-- What FindByTag and Versions return.
use otus_app.Base.{◌≡◌, refl, true, false, List, [], ◌∷◌, Option, none, some, Bool-cases, inl, inr}
use otus_app.Text.{Text, lookup}
use otus_app.Blob.{Blob, Tags, value_matches, keep_tagged, find_tagged}

-- The objects with readable tags that match, each with its tags, in the order of the listing; the others are
-- left out.
pub data Selected (tags_of : Text → Option Tags) (key value : Text)
    : List Blob → List Blob → Type 0 where
  nil : Selected tags_of key value [] []
  taken :
      {obj : Blob} {objs found : List Blob} (t : Tags)
      → tags_of obj.key ≡ some t
      → value_matches value (lookup key t) ≡ true
      → Selected tags_of key value objs found
      → Selected tags_of key value (obj ∷ objs) (record obj { tags = t } ∷ found)
  unmatched :
      {obj : Blob} {objs found : List Blob} (t : Tags)
      → tags_of obj.key ≡ some t
      → value_matches value (lookup key t) ≡ false
      → Selected tags_of key value objs found
      → Selected tags_of key value (obj ∷ objs) found
  unreadable :
      {obj : Blob} {objs found : List Blob}
      → tags_of obj.key ≡ none
      → Selected tags_of key value objs found
      → Selected tags_of key value (obj ∷ objs) found

keep_tagged-Selected :
    (tags_of : Text → Option Tags) (key value : Text) (obj : Blob) (objs found : List Blob)
    (o : Option Tags)
    → tags_of obj.key ≡ o
    → Selected tags_of key value objs found
    → Selected tags_of key value (obj ∷ objs) (keep_tagged key value obj o found)
unfolding keep_tagged
keep_tagged-Selected tags_of key value obj objs found none e s = unreadable e s
keep_tagged-Selected tags_of key value obj objs found (some t) e s =
    elim (Bool-cases (value_matches value (lookup key t))) [
      | inl b ↦ rw b (taken t e b s)
      | inr b ↦ rw b (unmatched t e b s)
    ]

-- FindByTag's loop returns, in the order of the listing and with their tags, exactly the objects
-- whose tags could be read and hold the key with a matching value, where an empty value matches
-- any.
pub find_tagged-Selected :
    (tags_of : Text → Option Tags) (key value : Text) (objs : List Blob)
    → Selected tags_of key value objs (find_tagged tags_of key value objs)
unfolding find_tagged
find_tagged-Selected tags_of key value [] = nil
find_tagged-Selected tags_of key value (obj ∷ objs) =
    keep_tagged-Selected tags_of key value obj objs (find_tagged tags_of key value objs)
      (tags_of obj.key) refl (find_tagged-Selected tags_of key value objs)
