-- ===== src/Tests/Blob.antt =====
-- Objects of S3 at concrete inputs.
use otus_app.Base.{ℕ, ◌≡◌, refl, sym, ap, arith, take, drop, List, [], ◌∷◌, Option, none, some}
use otus_app.Text.{Text, codes}
use otus_app.Blob.{Blob, Tags, find_tagged}
use otus_app.Base.Int.{ℤ, pos, negsuc, wrap64, ◌+ℤ◌, ◌-ℤ◌}
use otus_app.Text.{is_empty}
use otus_app.Text.Decimal.{parse_int, parse_nat, parse_digits, is_digit}
use otus_app.Messaging.{Result, ok, err, other}
use otus_app.Blob.{last_offset}
use otus_app.Blob.Objects.{
  Info, Client, plain, get_blob, parts_from_etag, cut_last_dash, strip_quotes,
}
use otus_app.Blob.Reading.{served, Serves, get_blob-bytes}
use otus_app.Blob.Tagged.{Selected, find_tagged-Selected}

abbrev blob : Text → Blob
blob key = record { key = key; size = 1; version_id = []; tags = [] }

abbrev same_tags : Text → Option Tags
same_tags [] = none
same_tags (c ∷ cs) = some ((codes "k", cs) ∷ [])

abbrev three : List Blob
three = blob (codes "ax") ∷ blob [] ∷ blob (codes "by") ∷ []

find_tagged-Selected_example :
    Selected same_tags
      (codes "k")
      (codes "x")
      three
      (find_tagged same_tags (codes "k") (codes "x") three)
find_tagged-Selected_example = find_tagged-Selected same_tags (codes "k") (codes "x") three

-- A bucket with one object, served as ranges ask for.
abbrev stored : Text
stored = codes "hello"

abbrev info : Info
info = record {
  key = codes "a";
  size = pos 5;
  etag = codes "9f-3";
  version_id = [];
  content_type = [];
}

abbrev serve : Option (ℤ × ℤ) → Result Text
serve none = ok stored
serve (some (pos a, pos b)) = ok (served a b stored)
serve (some (pos a, negsuc b)) = err (other 1)
serve (some (negsuc a, b)) = err (other 1)

abbrev bucket : Client ℕ
bucket = record {
  put_object = λ key bytes size content_type tags w. (ok info, w);
  set_range = λ a b. none;
  get_object = λ key version range w. (serve range, w);
  stat_opened = λ w. (ok info, w);
  close_opened = λ w. w;
  list_objects = λ prefix w. (ok info ∷ [], w);
  get_tagging = λ key version w. (ok [], w);
  new_tags = λ tags. ok tags;
  put_tagging = λ key tags w. (none, w);
  stat_object = λ key version w. (ok info, w);
}

abbrev content : Text → Text → ℕ → Text
content key version w = stored

ok_inj : {a b : Text} → ok a ≡ ok b → b ≡ a
ok_inj {a} {b} h = sym (ap text_of h)
  where
    text_of : Result Text → Text
    text_of (ok t) = t
    text_of (err e) = a

bucket-Serves : Serves bucket content
bucket-Serves = record {
  whole = λ key version bytes w h. ok_inj h;
  ranged = λ key version bytes a b w h. ok_inj h;
}

get_blob-bytes_example : codes "ell" ≡ take 3 (drop 1 stored)
get_blob-bytes_example =
    get_blob-bytes bucket content bucket-Serves (codes "a") [] (codes "ell") (plain info) 1 3 0
      (omega arith) (unfold get_blob last_offset served wrap64 ◌+ℤ◌ ◌-ℤ◌ in refl)

multipart : parts_from_etag info.etag ≡ pos 3
unfolding parts_from_etag cut_last_dash is_empty parse_int strip_quotes parse_nat parse_digits
    is_digit
multipart = refl
