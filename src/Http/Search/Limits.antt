-- ===== src/Http/Search/Limits.antt =====
-- The limits that reach the ports, and when updateTags reports success.
use otus_app.Base.{ℕ, ◌≤◌, ◌<◌, ◌≡◌, refl, List, Option, none, some, arith, inl, inr, Bool-cases}
use otus_app.Base.Int.{ℤ, pos, negsuc, ◌≤ℤ◌}
use otus_app.Text.{Text, is_empty}
use otus_app.Text.Path.{path_base}
use otus_app.Text.Decimal.{parse_int}
use otus_app.Messaging.{Error}
use otus_app.Http.{Request, write_json, error_response}
use otus_app.Http.Params.{int_param, clamp_param}
use otus_app.Http.Search.{
  Api, Bucket, Index, update_tags, update_tags_in, update_decoded, after_set_tags,
}

clamp_param-bounds :
    (fallback max : ℕ) (o : Option ℤ)
    → 0 < fallback
    → fallback ≤ max
    → (pos 1 ≤ℤ clamp_param (pos fallback) (pos max) o)
      × (clamp_param (pos fallback) (pos max) o ≤ℤ pos max)
clamp_param-bounds fallback max none p h = (omega arith, omega arith)
clamp_param-bounds fallback max (some (pos n)) p h = (ground arith, ground arith)
clamp_param-bounds fallback max (some (negsuc n)) p h = (ground arith, ground arith)

-- For a positive fallback that is at most the maximum, intParam returns a number from 1 to the
-- maximum, whatever the parameter holds.
pub int_param-bounds :
    (raw : Text) (fallback max : ℕ)
    → 0 < fallback
    → fallback ≤ max
    → (pos 1 ≤ℤ int_param raw (pos fallback) (pos max))
      × (int_param raw (pos fallback) (pos max) ≤ℤ pos max)
unfolding int_param
int_param-bounds raw fallback max p h = elim (Bool-cases (is_empty raw)) [
  | inl e ↦ rw e (omega arith, omega arith)
  | inr e ↦ rw e (clamp_param-bounds fallback max (parse_int raw) p h)
]

after_set_tags_ok :
    {W : Type 0} (index : Option (Index W)) (blobs : Bucket W) (key : Text)
    (tags : List (Text × Text)) (r : Option Error × W)
    → (after_set_tags index blobs key tags r).0.status ≡ 200
    → r.0 ≡ none
unfolding after_set_tags error_response write_json
after_set_tags_ok index blobs key tags (none, w) h = refl
after_set_tags_ok index blobs key tags (some e, w) h = absurd (ground arith)

update_decoded_ok :
    {W : Type 0} (index : Option (Index W)) (blobs : Bucket W) (key : Text)
    (o : Option (List (Text × Text))) (w : W)
    → (update_decoded index blobs key o w).0.status ≡ 200
    → (tags : List (Text × Text)) × (o ≡ some tags) × ((blobs.set_tags key tags w).0 ≡ none)
unfolding update_decoded error_response write_json
update_decoded_ok index blobs key none w h = absurd (ground arith)
update_decoded_ok index blobs key (some tags) w h =
    (tags, refl, after_set_tags_ok index blobs key tags (blobs.set_tags key tags w) h)

-- With S3 configured, updateTags answers with 200 only if the body decodes to tags and SetTags
-- stored these tags under the base name of the path without an error.
pub update_tags_ok :
    {W : Type 0} (a : Api W) (decode : Text → Option (List (Text × Text))) (blobs : Bucket W)
    (r : Request) (w : W)
    → a.blobs ≡ some blobs
    → (update_tags a decode r w).0.status ≡ 200
    → (tags : List (Text × Text)) × (decode r.body ≡ some tags)
      × ((blobs.set_tags (path_base r.path_value) tags w).0 ≡ none)
unfolding update_tags update_tags_in
update_tags_ok a decode blobs r w e h =
    update_decoded_ok a.search blobs (path_base r.path_value) (decode r.body) w (rw e at h)
