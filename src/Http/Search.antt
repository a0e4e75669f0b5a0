-- ===== src/Http/Search.antt =====
-- internal/handlers/storage.go: searchMessages, listEvents, getEvent, listFiles, listVersions and
-- updateTags. What a port returns is taken as the text of its JSON.
pub mod Limits
use otus_app.Base.{
  ℕ, Bool, true, false, ◌||◌, ◌&&◌, not, List, [], ◌∷◌, Option, none, some, if◌then◌else◌, length,
}
use otus_app.Base.Int.{ℤ, pos, negsuc}
use otus_app.Text.{Text, codes, text_eq, is_empty}
use otus_app.Text.Trim.{trim_space}
use otus_app.Text.Path.{path_base}
use otus_app.Text.Decimal.{parse_int}
use otus_app.Messaging.{Result, ok, err, Error}
use otus_app.Http.{
  Request, Response, Body, query_get, write_json, error_response, found_body, scanned_body,
  item_body, tags_body,
}
use otus_app.Http.Params.{backend_param, int_param, split_tag}
use otus_app.Http.Files.{Object, FileDoc}

pub record Index (W : Type 0) : Type 0 where
  pub search_messages : Text → ℤ → W → Result (ℕ × List Text) × W
  pub search_files : Text → Text → Text → ℤ → W → Result (ℕ × List Text) × W
  pub index_file : FileDoc → W → Option Error × W

pub record Events (W : Type 0) : Type 0 where
  pub recent : Text → ℤ → W → Result (List Text) × W
  pub by_id : ℤ → W → Result Text × W
  pub scan : Text → ℤ → W → Result (List Text × ℕ) × W

pub record Bucket (W : Type 0) : Type 0 where
  pub list : Text → W → Result (List Text) × W
  pub find_by_tag : Text → Text → Text → W → Result (List Text) × W
  pub versions : Text → W → Result (List Text) × W
  pub set_tags : Text → List (Text × Text) → W → Option Error × W
  pub stat : Text → Text → W → Result Object × W

pub record Api (W : Type 0) : Type 0 where
  pub search : Option (Index W)
  pub events : Option (Events W)
  -- rawStore, if it is a MessageSearcher
  pub searcher : Option (Text → ℤ → W → Result (List Text) × W)
  pub blobs : Option (Bucket W)
  -- the List of Files
  pub files : Option (W → Result (List Text) × W)

abbrev pub no_search : Response
no_search = error_response 503 (codes "поиск не настроен")

abbrev pub no_events : Response
no_events = error_response 503 (codes "лента событий не настроена")

abbrev pub no_s3 : Response
no_s3 = error_response 503 (codes "S3 не настроен")

abbrev pub or_default : Text → Text → Text
or_default fallback t = if is_empty t then fallback else t

abbrev pub is_some : {A : Type 0} → Option A → Bool
is_some none = false
is_some (some a) = true

module _ {W : Type 0} where
  -- An answer of a port: the error's status and text, or the JSON of what was found.
  unfoldable pub found : ℕ → Text → Text → Result (List Text) × W → Response × W
  found status failed source (err e, w) = (error_response status failed, w)
  found status failed source (ok items, w) =
      (write_json [] 200 (found_body source (length items) items), w)

  unfoldable pub found_total : Text → Text → Result (ℕ × List Text) × W → Response × W
  found_total failed source (err e, w) = (error_response 500 failed, w)
  found_total failed source (ok (total, items), w) =
      (write_json [] 200 (found_body source total items), w)

  unfoldable pub found_scanned : Result (List Text × ℕ) × W → Response × W
  found_scanned (err e, w) = (error_response 500 (codes "поиск не удался"), w)
  found_scanned (ok (items, scanned), w) =
      (write_json [] 200 (scanned_body (length items) scanned items), w)

  unfoldable pub search_elastic : Option (Index W) → Text → ℤ → W → Response × W
  search_elastic none query limit w = (no_search, w)
  search_elastic (some index) query limit w =
      found_total (codes "поиск не удался") (codes "elasticsearch")
        (index.search_messages query limit w)

  unfoldable pub search_cassandra : Option (Events W) → Text → ℤ → W → Response × W
  search_cassandra none query limit w = (no_events, w)
  search_cassandra (some events) query limit w = found_scanned (events.scan query limit w)

  unfoldable pub search_postgres :
      Option (Text → ℤ → W → Result (List Text) × W) → Text → ℤ → W → Response × W
  search_postgres none query limit w =
      (error_response 503 (codes "поиск по БД не поддерживается"), w)
  search_postgres (some search) query limit w =
      found 500 (codes "поиск не удался") (codes "postgres") (search query limit w)

  -- The switch on the engine.
  unfoldable pub search_engine : Api W → Text → Text → ℤ → W → Response × W
  search_engine a engine query limit w =
      if text_eq engine (codes "elasticsearch") || text_eq engine (codes "es")
      then search_elastic a.search query limit w
      else if text_eq engine (codes "cassandra")
      then search_cassandra a.events query limit w
      else if text_eq engine (codes "postgres")
      then search_postgres a.searcher query limit w
      else (error_response 400 (codes "неизвестный движок поиска"), w)

  unfoldable pub search_messages : Api W → Request → W → Response × W
  search_messages a r w =
      if is_empty (trim_space (query_get r (codes "q")))
      then (error_response 400 (codes "параметр q обязателен"), w)
      else search_engine a (or_default (codes "elasticsearch") (query_get r (codes "engine")))
          (trim_space (query_get r (codes "q")))
          (int_param (query_get r (codes "limit")) (pos 10) (pos 1000)) w

  unfoldable pub list_events : Option (Events W) → Request → W → Response × W
  list_events none r w = (no_events, w)
  list_events (some events) r w = found 500 (codes "не удалось прочитать ленту событий") [] (
      events.recent (query_get r (codes "day"))
        (int_param (query_get r (codes "limit")) (pos 20) (pos 1000)) w)

  unfoldable pub event_answer : Result Text × W → Response × W
  event_answer (err e, w) = (error_response 404 (codes "событие не найдено"), w)
  event_answer (ok ev, w) = (write_json [] 200 (item_body ev), w)

  unfoldable pub get_event_of : Events W → Option ℤ → W → Response × W
  get_event_of events none w = (error_response 400 (codes "некорректный идентификатор"), w)
  get_event_of events (some id) w = event_answer (events.by_id id w)

  unfoldable pub get_event : Option (Events W) → Request → W → Response × W
  get_event none r w = (no_events, w)
  get_event (some events) r w = get_event_of events (parse_int r.path_value) w

  -- The source of listFiles.
  unfoldable pub file_source : Api W → Text → Text → Text → Text
  file_source a source tag_key backend =
      if not (is_empty source)
      then source
      else if not (is_empty tag_key) && is_some a.search
      then codes "es"
      else backend

  unfoldable pub files_elastic : Option (Index W) → Text × Text → Text → ℤ → W → Response × W
  files_elastic none tag backend limit w = (no_search, w)
  files_elastic (some index) (key, value) backend limit w =
      found_total (codes "не удалось найти файлы") (codes "elasticsearch")
        (index.search_files key value backend limit w)

  unfoldable pub files_hdfs : Option (W → Result (List Text) × W) → W → Response × W
  files_hdfs none w = (error_response 503 (codes "HDFS не настроен"), w)
  files_hdfs (some list) w =
      found 502 (codes "не удалось получить список файлов") (codes "hdfs") (list w)

  unfoldable pub files_blob : Option (Bucket W) → Text × Text → Text → W → Response × W
  files_blob none tag prefix w = (no_s3, w)
  files_blob (some blobs) (key, value) prefix w =
      found 502 (codes "не удалось получить список объектов") (codes "s3")
        (if is_empty key then blobs.list prefix w else blobs.find_by_tag key value prefix w)

  unfoldable pub files_from : Api W → Text → Text × Text → Request → W → Response × W
  files_from a source tag r w =
      if text_eq source (codes "es")
      then files_elastic a.search tag (backend_param (query_get r (codes "backend")))
          (int_param (query_get r (codes "limit")) (pos 50) (pos 1000)) w
      else if text_eq source (codes "hdfs")
      then files_hdfs a.files w
      else files_blob a.blobs tag (query_get r (codes "prefix")) w

  unfoldable pub list_files : Api W → Request → W → Response × W
  list_files a r w =
      let tag = split_tag (query_get r (codes "tag")) in
      files_from a
        (file_source a (query_get r (codes "source")) tag.0
          (backend_param (query_get r (codes "backend"))))
        tag r w

  unfoldable pub list_versions : Option (Bucket W) → Request → W → Response × W
  list_versions none r w = (no_s3, w)
  list_versions (some blobs) r w =
      found 502 (codes "не удалось получить версии объекта") (path_base r.path_value)
        (blobs.versions (path_base r.path_value) w)

  -- The end of updateTags: the index learns the tags if Stat succeeds.
  unfoldable pub index_tags : Option (Index W) → Text → List (Text × Text) → Result Object × W → W
  index_tags index key tags (err e, w) = w
  index_tags none key tags (ok obj, w) = w
  index_tags (some index) key tags (ok obj, w) =
      (index.index_file
        (record {
          key = key;
          backend = codes "s3";
          size = obj.size;
          version_id = obj.version_id;
          tags = tags;
        })
        w).1

  unfoldable pub after_set_tags :
      Option (Index W) → Bucket W → Text → List (Text × Text) → Option Error × W → Response × W
  after_set_tags index blobs key tags (some e, w) =
      (error_response 502 (codes "не удалось обновить теги"), w)
  after_set_tags index blobs key tags (none, w) =
      (write_json [] 200 (tags_body key tags), index_tags index key tags (blobs.stat key [] w))

  unfoldable pub update_decoded :
      Option (Index W) → Bucket W → Text → Option (List (Text × Text)) → W → Response × W
  update_decoded index blobs key none w =
      (error_response 400 (codes "некорректное тело запроса"), w)
  update_decoded index blobs key (some tags) w =
      after_set_tags index blobs key tags (blobs.set_tags key tags w)

  unfoldable pub update_tags_in :
      Option (Bucket W) → Api W → (Text → Option (List (Text × Text))) → Request → W → Response × W
  update_tags_in none a decode r w = (no_s3, w)
  update_tags_in (some blobs) a decode r w =
      update_decoded a.search blobs (path_base r.path_value) (decode r.body) w

  -- updateTags; `decode` is the decoding of the body.
  unfoldable pub update_tags :
      Api W → (Text → Option (List (Text × Text))) → Request → W → Response × W
  update_tags a decode r w = update_tags_in a.blobs a decode r w
