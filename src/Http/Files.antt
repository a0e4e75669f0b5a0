-- ===== src/Http/Files.antt =====
-- internal/handlers/storage.go: downloadFile and uploadFile over the ports Blobs and Files, whose state
-- is a world W. The ports' records hold the operations that these handlers use.
pub mod Download
use otus_app.Base.{
  ℕ, suc, ◌+◌, Bool, true, false, ◌||◌, not, ◌==◌, List, [], ◌∷◌, ◌++◌, Option, none, some,
  if◌then◌else◌, ltb,
}
use otus_app.Base.Int.{ℤ, pos, negsuc, ◌+ℤ◌, ◌-ℤ◌, ltb_ℤ, wrap64}
use otus_app.Text.{Text, codes, insert, text_eq, is_empty}
use otus_app.Text.Trim.{trim_space}
use otus_app.Text.Decimal.{format_nat}
use otus_app.Messaging.{Result, ok, err, Error}
use otus_app.Http.{
  Request, Response, Body, query_get, header_get, write_json, error_response, error_text,
  file_bytes, tags_body,
}
use otus_app.Http.Params.{backend_param, content_length_param, parse_tags, parse_range}
use otus_app.Text.Path.{path_base}

-- blobstore.Object and hdfsstore.File, as far as the handlers use them.
pub record Object : Type 0 where
  pub key : Text
  pub size : ℤ
  pub version_id : Text

-- search.FileDoc, without its time.
pub record FileDoc : Type 0 where
  pub key : Text
  pub backend : Text
  pub size : ℤ
  pub version_id : Text
  pub tags : List (Text × Text)

-- Get gives the bytes of the reader; the arguments are key, version, offset and length.
pub record Blobs (W : Type 0) : Type 0 where
  pub put : Text → Text → ℤ → Text → List (Text × Text) → W → Result Object × W
  pub get : Text → Text → ℤ → ℤ → W → Result (Text × Object) × W
  pub stat : Text → Text → W → Result Object × W
  pub set_tags : Text → List (Text × Text) → W → Option Error × W

-- The same for HDFS, which has no versions: `version_id` is "".
pub record Files (W : Type 0) : Type 0 where
  pub put : Text → Text → W → Result Object × W
  pub get : Text → ℤ → ℤ → W → Result (Text × Object) × W
  pub stat : Text → W → Result Object × W

pub record Storages (W : Type 0) : Type 0 where
  pub blobs : Option (Blobs W)
  pub files : Option (Files W)
  pub index_file : Option (FileDoc → W → Option Error × W)

-- strconv.FormatInt(n, 10)
unfoldable pub format_int : ℤ → Text
format_int (pos n) = format_nat n
format_int (negsuc n) = b'-' ∷ format_nat (suc n)

unfoldable pub content_range : ℤ → ℤ → ℤ → Text
content_range offset size total =
    codes "bytes "
    ++ format_int offset
    ++ b'-' ∷ format_int (wrap64 (wrap64 (offset +ℤ size) -ℤ pos 1))
    ++ b'/' ∷ format_int total

abbrev pub is_zero : ℤ → Bool
is_zero (pos n) = n == 0
is_zero (negsuc n) = false

-- The total of the header: Stat's size, or the end of the range when it is 0.
unfoldable pub range_total : ℤ → ℤ → ℤ → ℤ
range_total total offset size = if is_zero total then wrap64 (offset +ℤ size) else total

unfoldable pub range_header : ℤ × ℤ × Bool → ℤ → ℤ → List (Text × Text) → List (Text × Text)
range_header (offset, length, false) size total header = header
range_header (offset, length, true) size total header =
    insert (codes "Accept-Ranges") (codes "bytes") (
      insert (codes "Content-Range") (content_range offset size (range_total total offset size))
        header)

unfoldable pub length_header : ℤ → List (Text × Text) → List (Text × Text)
length_header size header =
    if ltb_ℤ (pos 0) size then insert (codes "Content-Length") (format_int size) header else header

unfoldable pub version_header : Text → List (Text × Text)
version_header id = if is_empty id then [] else (codes "X-Version-Id", id) ∷ []

abbrev pub download_status : ℤ × ℤ × Bool → ℕ
download_status (offset, length, has_range) = if has_range then 206 else 200

-- The end of downloadFile: size is what Get says, total what Stat says.
unfoldable pub answer_download : Text → ℤ × ℤ × Bool → ℤ → Result (Text × Object) → Response
answer_download backend range total (err e) = error_response 404 (codes "файл не найден")
answer_download backend range total (ok (bytes, obj)) = record {
  status = download_status range;
  header = length_header obj.size (
      range_header range obj.size total (
        insert (codes "X-Backend") backend (
          insert (codes "Content-Type") (codes "application/octet-stream")
            (version_header obj.version_id))));
  body = file_bytes bytes;
}

-- The size that Stat gives; 0 when it fails.
abbrev pub total_of : Result Object → ℤ
total_of (err e) = pos 0
total_of (ok obj) = obj.size

abbrev pub content_type_or_default : Text → Text
content_type_or_default t = if is_empty t then codes "application/octet-stream" else t

abbrev pub is_no_name : Text → Bool
is_no_name name = is_empty name || text_eq name (codes ".") || text_eq name (codes "/")

module _ {W : Type 0} where
  unfoldable pub download_hdfs : Option (Files W) → Text → ℤ × ℤ × Bool → W → Response × W
  download_hdfs none key range w = (error_response 503 (codes "HDFS не настроен"), w)
  download_hdfs (some files) key (offset, length, has_range) w =
      let (stat, w1) = files.stat key w in
      let (result, w2) = files.get key offset length w1 in
      (answer_download (codes "hdfs") (offset, length, has_range) (total_of stat) result, w2)

  unfoldable pub download_blob : Option (Blobs W) → Text → Text → ℤ × ℤ × Bool → W → Response × W
  download_blob none key version range w = (error_response 503 (codes "S3 не настроен"), w)
  download_blob (some blobs) key version (offset, length, has_range) w =
      let (stat, w1) = blobs.stat key version w in
      let (result, w2) = blobs.get key version offset length w1 in
      (answer_download (codes "s3") (offset, length, has_range) (total_of stat) result, w2)

  unfoldable pub download_file : Storages W → Request → W → Response × W
  download_file a r w =
      let key = path_base r.path_value in
      let range = parse_range (header_get r (codes "Range")) in
      if text_eq (backend_param (query_get r (codes "backend"))) (codes "hdfs")
      then download_hdfs a.files key range w
      else download_blob a.blobs key (query_get r (codes "version")) range w

  -- indexFile: an error of the index is only logged.
  unfoldable pub index_file : Option (FileDoc → W → Option Error × W) → FileDoc → W → W
  index_file none doc w = w
  index_file (some index) doc w = (index doc w).1

  -- The end of uploadFile.
  unfoldable pub answer_upload :
      Storages W → Text → List (Text × Text) → Text → Result Object × W → Response × W
  answer_upload a backend tags failed (err e, w) = (error_response 502 failed, w)
  answer_upload a backend tags failed (ok obj, w) = (
    write_json [] 201 (tags_body obj.key tags),
    index_file a.index_file
        (record {
          key = obj.key;
          backend = backend;
          size = obj.size;
          version_id = obj.version_id;
          tags = tags;
        })
        w,
  )

  unfoldable pub upload_hdfs :
      Option (Files W) → Storages W → Text → List (Text × Text) → Text → W → Response × W
  upload_hdfs none a name tags body w = (error_response 503 (codes "HDFS не настроен"), w)
  upload_hdfs (some files) a name tags body w =
      answer_upload a (codes "hdfs") tags (codes "не удалось записать файл") (files.put name body w)

  unfoldable pub upload_blob :
      Option (Blobs W) → Storages W → Text → List (Text × Text) → Request → Text → W → Response × W
  upload_blob none a name tags r body w = (error_response 503 (codes "S3 не настроен"), w)
  upload_blob (some blobs) a name tags r body w =
      answer_upload a (codes "s3") tags (codes "не удалось записать объект") (
        blobs.put name body (content_length_param r.content_length)
          (content_type_or_default (header_get r (codes "Content-Type"))) tags w)

  -- The body is what MaxBytesReader lets the storage read.
  unfoldable pub upload_file : Storages W → Request → W → Response × W
  upload_file a r w =
      let name = path_base (trim_space (query_get r (codes "name"))) in
      let tags = parse_tags (query_get r (codes "tags")) in
      if is_no_name name
      then (error_response 400 (codes "параметр name обязателен"), w)
      else if text_eq (backend_param (query_get r (codes "backend"))) (codes "hdfs")
      then upload_hdfs a.files a name tags r.body w
      else upload_blob a.blobs a name tags r r.body w
