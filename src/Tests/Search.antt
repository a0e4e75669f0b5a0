-- ===== src/Tests/Search.antt =====
-- The theorems on the handlers of files and search at concrete inputs.
use otus_app.Base.{ℕ, ◌+◌, ◌≡◌, refl, List, [], Option, none, some, arith}
use otus_app.Base.Int.{pos, ◌≤ℤ◌}
use otus_app.Text.{Text, codes}
use otus_app.Text.Path.{path_base}
use otus_app.Messaging.{ok, err, lease_lost}
use otus_app.Http.{Request, write_json}
use otus_app.Http.Params.{int_param}
use otus_app.Http.Search.{Api, Bucket, update_tags, update_tags_in, update_decoded, after_set_tags}
use otus_app.Http.Search.Limits.{int_param-bounds, update_tags_ok}

int_param-bounds_example :
    (pos 1 ≤ℤ int_param (codes "5000") (pos 10) (pos 1000))
    × (int_param (codes "5000") (pos 10) (pos 1000) ≤ℤ pos 1000)
int_param-bounds_example = int_param-bounds (codes "5000") 10 1000 (omega arith) (omega arith)

-- A bucket that counts the changes of tags.
abbrev bucket : Bucket ℕ
bucket = record {
  list = λ prefix w. (ok [], w);
  find_by_tag = λ k v prefix w. (ok [], w);
  versions = λ k w. (ok [], w);
  set_tags = λ k tags w. (none, w + 1);
  stat = λ k version w. (err lease_lost, w);
}

abbrev api : Api ℕ
api = record { search = none; events = none; searcher = none; blobs = some bucket; files = none }

abbrev request : Request
request = record {
  query = [];
  header = [];
  path_value = codes "f";
  content_length = pos 0;
  body = codes "{}";
}

abbrev no_tags : Text → Option (List (Text × Text))
no_tags body = some []

update_tags_ok_example :
    (tags : List (Text × Text)) × (some [] ≡ some tags)
    × ((bucket.set_tags (path_base (codes "f")) tags 0).0 ≡ none)
unfolding update_tags update_tags_in update_decoded after_set_tags write_json
update_tags_ok_example = update_tags_ok api no_tags bucket request 0 refl refl
