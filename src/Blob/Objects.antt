-- ===== src/Blob/Objects.antt =====
-- internal/blobstore/blobstore.go: Put, Get, List, Tags, SetTags and Stat over the S3 client, which is a
-- parameter, and partsFromETag.
use otus_app.Base.{ℕ, ◌||◌, ◌==◌, List, [], ◌∷◌, Option, none, some, reverse, if◌then◌else◌}
use otus_app.Base.Int.{ℤ, pos, ltb_ℤ}
use otus_app.Text.{Text, is_empty}
use otus_app.Text.Decimal.{parse_int}
use otus_app.Messaging.{Result, ok, err, Error}
use otus_app.Blob.{Tags, last_offset}

-- What the client tells of an object.
pub record Info : Type 0 where
  pub key : Text
  pub size : ℤ
  pub etag : Text
  pub version_id : Text
  pub content_type : Text

-- Object, without its times.
pub record StoredObject : Type 0 where
  pub info : Info
  pub tags : Tags
  pub parts : ℤ

-- strings.LastIndex of a dash: the text before and after it.
abbrev pub put_before : ℕ → Text → Option (Text × Text) → Option (Text × Text)
put_before c cs none = if c == b'-' then some ([], cs) else none
put_before c cs (some (before, after)) = some (c ∷ before, after)

unfoldable pub cut_last_dash : Text → Option (Text × Text)
cut_last_dash [] = none
cut_last_dash (c ∷ cs) = put_before c cs (cut_last_dash cs)

unfoldable pub strip_quotes : Text → Text
strip_quotes [] = []
strip_quotes (c ∷ cs) = let rest = strip_quotes cs in if c == b'"' then rest else c ∷ cs

abbrev pub or_zero : Option ℤ → ℤ
or_zero none = pos 0
or_zero (some n) = n

abbrev pub parts_after : Option (Text × Text) → ℤ
parts_after none = pos 0
parts_after (some (before, after)) =
    if is_empty before
    then pos 0
    else or_zero (parse_int (reverse (strip_quotes (reverse (strip_quotes after)))))

-- partsFromETag
unfoldable pub parts_from_etag : Text → ℤ
parts_from_etag etag = parts_after (cut_last_dash etag)

-- The methods of the client that the code calls; SetRange of its options only checks the range. `body` is what
-- can be read of an object that GetObject opened.
pub record Client (W : Type 0) : Type 0 where
  pub put_object : Text → Text → ℤ → Text → Tags → W → Result Info × W
  pub set_range : ℤ → ℤ → Option Error
  pub get_object : Text → Text → Option (ℤ × ℤ) → W → Result Text × W
  pub stat_opened : W → Result Info × W
  pub close_opened : W → W
  pub list_objects : Text → W → List (Result Info) × W
  pub get_tagging : Text → Text → W → Result Tags × W
  pub new_tags : Tags → Result Tags
  pub put_tagging : Text → Tags → W → Option Error × W
  pub stat_object : Text → Text → W → Result Info × W

abbrev pub plain : Info → StoredObject
plain i = record { info = i; tags = []; parts = pos 0 }

module _ {W : Type 0} (client : Client W) where
  abbrev pub put_result : Text → Tags → Result Info × W → Result StoredObject × W
  put_result content_type tags (err e, w) = (err e, w)
  put_result content_type tags (ok i, w) = (
    ok (record {
      info = record i { content_type = content_type };
      tags = tags;
      parts = parts_from_etag i.etag;
    }),
    w,
  )

  -- Put
  unfoldable pub put_blob : Text → Text → ℤ → Text → Tags → W → Result StoredObject × W
  put_blob key bytes size content_type tags w =
      put_result content_type tags (client.put_object key bytes size content_type tags w)

  abbrev pub with_stat : Text → Result Info × W → Result (Text × StoredObject) × W
  with_stat bytes (err e, w) = (err e, client.close_opened w)
  with_stat bytes (ok i, w) = (ok (bytes, plain i), w)

  abbrev pub opened_blob : Result Text × W → Result (Text × StoredObject) × W
  opened_blob (err e, w) = (err e, w)
  opened_blob (ok bytes, w) = with_stat bytes (client.stat_opened w)

  abbrev pub get_range : Text → Text → ℤ × ℤ → Option Error → W → Result (Text × StoredObject) × W
  get_range key version range (some e) w = (err e, w)
  get_range key version range none w = opened_blob (client.get_object key version (some range) w)

  -- Get
  unfoldable pub get_blob : Text → Text → ℤ → ℤ → W → Result (Text × StoredObject) × W
  get_blob key version offset length w =
      let last = last_offset offset length in
      if ltb_ℤ (pos 0) offset || ltb_ℤ (pos 0) length
      then get_range key version (offset, last) (client.set_range offset last) w
      else opened_blob (client.get_object key version none w)

  -- The loop of List.
  abbrev pub add_object : Info → Result (List StoredObject) → Result (List StoredObject)
  add_object i (err e) = err e
  add_object i (ok objects) = ok (plain (record i { content_type = [] }) ∷ objects)

  unfoldable pub objects_of : List (Result Info) → Result (List StoredObject)
  objects_of [] = ok []
  objects_of (err e ∷ infos) = err e
  objects_of (ok i ∷ infos) = add_object i (objects_of infos)

  unfoldable pub list_blobs : Text → W → Result (List StoredObject) × W
  list_blobs prefix w = let r = client.list_objects prefix w in (objects_of r.0, r.1)

  unfoldable pub tags_of_blob : Text → Text → W → Result Tags × W
  tags_of_blob key version w = client.get_tagging key version w

  abbrev pub put_tags : Text → Result Tags → W → Option Error × W
  put_tags key (err e) w = (some e, w)
  put_tags key (ok tags) w = client.put_tagging key tags w

  -- SetTags
  unfoldable pub set_tags : Text → Tags → W → Option Error × W
  set_tags key tags w = put_tags key (client.new_tags tags) w

  abbrev pub stat_result : Result Info × W → Result StoredObject × W
  stat_result (err e, w) = (err e, w)
  stat_result (ok i, w) = (ok (record { info = i; tags = []; parts = parts_from_etag i.etag }), w)

  -- Stat
  unfoldable pub stat_blob : Text → Text → W → Result StoredObject × W
  stat_blob key version w = stat_result (client.stat_object key version w)
