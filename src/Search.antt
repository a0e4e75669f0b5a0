-- ===== src/Search.antt =====
-- internal/search/search.go: ensure, the writing of documents, and the two searches. The client of
-- Elasticsearch and the JSON coding are parameters.
pub mod Ready
pub mod Filters
use otus_app.Base.{
  ℕ, Bool, true, false, List, [], ◌∷◌, ◌++◌, Option, none, some, ◌==◌, if◌then◌else◌, take,
}
use otus_app.Base.Int.{ℤ}
use otus_app.Text.{Text, codes, cut_prefix, is_empty}
use otus_app.Text.Trim.{trim_space}
use otus_app.Text.Decimal.{format_nat}

pub record Document : Type 0 where
  pub id : ℕ
  pub text : Text
  pub checksum : Text
  pub producer : Text
  pub created_at : ℕ

pub record FileDoc : Type 0 where
  pub key : Text
  pub backend : Text
  pub size : ℤ
  pub version_id : Text
  pub tags : List (Text × Text)

-- What a call of the client gives: an error, or a response; `is_error` is its method IsError.
pub data Call : Type 0 where
  no_answer : ℕ → Call
  answer : ℕ → Bool → Text → Call

-- The methods of the client that the code calls: Indices.Exists and Create at a name, Index at an index,
-- an id and a body, Search at an index and a body, and Cluster.Health.
pub record Client (W : Type 0) : Type 0 where
  pub exists : Text → W → Call × W
  pub create : Text → Text → W → Call × W
  pub put : Text → Text → Text → Text → W → Call × W
  pub search : Text → Text → W → Call × W
  pub health : W → Call × W

pub data SearchError : Type 0 where
  not_configured encode_failed decode_failed : SearchError
  unreachable : ℕ → SearchError
  rejected : Text → SearchError
  not_created : Text → Text → SearchError

pub record Index (W : Type 0) : Type 0 where
  pub client : Client W
  pub msg_index : Text
  pub file_index : Text
  pub refresh_all : Bool

pub data Outcome (A : Type 0) : Type 0 where
  got : A → Outcome A
  error : SearchError → Outcome A

abbrev pub is_some : {A : Type 0} → Option A → Bool
is_some none = false
is_some (some a) = true

-- strings.Contains
unfoldable pub contains : Text → Text → Bool
contains [] part = is_some (cut_prefix [] part)
contains (c ∷ s) part =
    let rest = contains s part in if is_some (cut_prefix (c ∷ s) part) then true else rest

-- readBody
unfoldable pub read_body : Text → Text
read_body body = trim_space (take 4096 body)

abbrev pub already_exists : Text
already_exists = codes "resource_already_exists_exception"

-- The answer to Create.
unfoldable pub created : {W : Type 0} → Text → Call × W → Option SearchError × W
created name (no_answer e, w) = (some (unreachable e), w)
created name (answer status true body, w) = (
  if contains (read_body body) already_exists
      then none
      else some (not_created name (read_body body)),
  w,
)
created name (answer status false body, w) = (none, w)

-- The answer to Exists.
unfoldable pub after_exists :
    {W : Type 0} → Client W → Text → Text → Call × W → Option SearchError × W
after_exists client name mapping (no_answer e, w) = (some (unreachable e), w)
after_exists client name mapping (answer status is_error body, w) =
    if status == 200 then (none, w) else created name (client.create name mapping w)

unfoldable pub ensure : {W : Type 0} → Client W → Text → Text → W → Option SearchError × W
ensure client name mapping w = after_exists client name mapping (client.exists name w)

unfoldable pub refresh_value : Bool → Text
refresh_value true = codes "true"
refresh_value false = codes "false"

unfoldable pub put_answer : {W : Type 0} → Call × W → Option SearchError × W
put_answer (no_answer e, w) = (some (unreachable e), w)
put_answer (answer status true body, w) = (some (rejected (read_body body)), w)
put_answer (answer status false body, w) = (none, w)

-- index; the Option is the encoded document.
unfoldable pub index :
    {W : Type 0} → Index W → Text → Text → Option Text → W → Option SearchError × W
index i name id none w = (some encode_failed, w)
index i name id (some body) w =
    put_answer (i.client.put name id body (refresh_value i.refresh_all) w)

module _ {W : Type 0} where
  -- IndexMessage and IndexFile; no Index is the nil receiver.
  unfoldable pub index_message :
      (Document → Option Text) → Option (Index W) → Document → W → Option SearchError × W
  index_message marshal none doc w = (some not_configured, w)
  index_message marshal (some i) doc w = index i i.msg_index (format_nat doc.id) (marshal doc) w

  unfoldable pub index_file :
      (FileDoc → Option Text) → Option (Index W) → FileDoc → W → Option SearchError × W
  index_file marshal none doc w = (some not_configured, w)
  index_file marshal (some i) doc w =
      index i i.file_index (doc.backend ++ codes ":" ++ doc.key) (marshal doc) w

-- The filters of a query: the field exists, or has this value.
pub data Filter : Type 0 where
  exists : Text → Filter
  term : Text → Text → Filter

-- The body of a search: match on the text with all words, newest first; or all filters.
pub data Query : Type 0 where
  match_text : ℤ → Text → Query
  all_of : ℤ → List Filter → Query

unfoldable pub tag_filter : Text → Text → List Filter
tag_filter key v =
    if is_empty key
    then []
    else if is_empty v
    then exists (codes "tags." ++ key) ∷ []
    else term (codes "tags." ++ key) v ∷ []

unfoldable pub backend_filter : Text → List Filter
backend_filter backend = if is_empty backend then [] else term (codes "backend") backend ∷ []

unfoldable pub file_filters : Text → Text → Text → List Filter
file_filters key v backend = tag_filter key v ++ backend_filter backend

-- searchResponse: the total, the time, and the sources of the hits.
pub record Found : Type 0 where
  pub total : ℕ
  pub took : ℕ
  pub sources : List Text

pub record Result (D : Type 0) : Type 0 where
  pub total : ℕ
  pub took : ℕ
  pub documents : List D

-- The loop over the hits: a source that does not decode is left out.
unfoldable pub decode_hits : {D : Type 0} → (Text → Option D) → List Text → List D
decode_hits unmarshal [] = []
decode_hits unmarshal (s ∷ rest) = keep (unmarshal s) (decode_hits unmarshal rest)
  where
    keep : {D : Type 0} → Option D → List D → List D
    keep none ds = ds
    keep (some d) ds = d ∷ ds

unfoldable pub decoded : Option Found → Outcome Found
decoded none = error decode_failed
decoded (some f) = got f

unfoldable pub search_answer : {W : Type 0} → (Text → Option Found) → Call × W → Outcome Found × W
search_answer parse (no_answer e, w) = (error (unreachable e), w)
search_answer parse (answer status true body, w) = (error (rejected (read_body body)), w)
search_answer parse (answer status false body, w) = (decoded (parse body), w)

unfoldable pub result_of : {D : Type 0} → (Text → Option D) → Outcome Found → Outcome (Result D)
result_of unmarshal (error e) = error e
result_of unmarshal (got f) =
    got (record { total = f.total; took = f.took; documents = decode_hits unmarshal f.sources })

module _ {W : Type 0} (marshal : Query → Option Text) (parse : Text → Option Found) where
  -- search; the Option is the encoded body.
  unfoldable pub search : Index W → Text → Option Text → W → Outcome Found × W
  search i name none w = (error encode_failed, w)
  search i name (some payload) w = search_answer parse (i.client.search name payload w)

  unfoldable pub search_messages :
      (Text → Option Document) → Option (Index W) → Text → ℤ → W → Outcome (Result Document) × W
  search_messages unmarshal none query limit w = (error not_configured, w)
  search_messages unmarshal (some i) query limit w =
      let r = search i i.msg_index (marshal (match_text limit query)) w in
      (result_of unmarshal r.0, r.1)

  unfoldable pub search_files :
      (Text → Option FileDoc)
      → Option (Index W)
      → Text
      → Text
      → Text
      → ℤ
      → W
      → Outcome (Result FileDoc) × W
  search_files unmarshal none key v backend limit w = (error not_configured, w)
  search_files unmarshal (some i) key v backend limit w =
      let r = search i i.file_index (marshal (all_of limit (file_filters key v backend))) w in
      (result_of unmarshal r.0, r.1)

-- Health; the status is not looked at, `parse_status` decodes the body.
unfoldable pub health_answer : {W : Type 0} → (Text → Option Text) → Call × W → Outcome Text × W
health_answer parse_status (no_answer e, w) = (error (unreachable e), w)
health_answer parse_status (answer status is_error body, w) = (health_of (parse_status body), w)
  where
    health_of : Option Text → Outcome Text
    health_of none = error decode_failed
    health_of (some s) = got s

unfoldable pub cluster_health :
    {W : Type 0} → (Text → Option Text) → Option (Index W) → W → Outcome Text × W
cluster_health parse_status none w = (error not_configured, w)
cluster_health parse_status (some i) w = health_answer parse_status (i.client.health w)
