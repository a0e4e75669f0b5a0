-- ===== src/Tests/Http.antt =====
-- The theorems on the HTTP handlers at concrete inputs, and runs of the parsers.
use otus_app.Base.{
  ℕ, ◌+◌, ◌-◌, ◌^◌, ◌<◌, ◌≡◌, refl, true, List, [], ◌∷◌, ◌++◌, Option, none, some, drop, arith,
}
use otus_app.Base.Int.{pos, negsuc, wrap64}
use otus_app.Text.{Text, codes, text_eq, is_empty, insert, cut}
use otus_app.Text.Trim.{trim_space, trim_left, is_space, is_blank}
use otus_app.Text.Decimal.{format_nat}
use otus_app.Text.Split.{split}
use otus_app.Messaging.{
  Message, Store, ok, err, Result, validate_text, service_create, service_list, lease_lost,
}
use otus_app.Http.{Request, write_json, message_body, messages_body}
use otus_app.Http.Params.{parse_range, parse_tags, add_tags, add_tag}
use otus_app.Http.Ranges.{parse_range-closed}
use otus_app.Http.Messages.{Api, Cache, create_message, list_messages, answer_list, hit_response}
use otus_app.Http.Messages.Coherence.{IsCache, list_after_create, list_after_list}
use otus_app.Hdfs
use otus_app.Http.Files.{Object}

parse_range-closed_example :
    (parse_range (codes "bytes=" ++ format_nat 5 ++ b'-' ∷ format_nat 9)
      ≡ (pos 5, wrap64 (pos 5), true))
    × (5 < 2 ^ 63 → wrap64 (pos 5) ≡ pos 5)
parse_range-closed_example = parse_range-closed 5 9 (omega arith) (omega arith)

-- The range of all offsets wraps around.
all_offsets : wrap64 (pos (2 ^ 63)) ≡ negsuc (2 ^ 63 - 1)
unfolding wrap64
all_offsets = refl

tags_of_text :
    parse_tags (codes "a=1, b = 2,c,=3") ≡ (codes "a", codes "1") ∷ (codes "b", codes "2") ∷ []
unfolding parse_tags add_tags add_tag split cut insert text_eq is_empty trim_space trim_left
    is_space
tags_of_text = refl

abbrev message : ℕ → Text → Message
message id text = record { id = id; text = text; checksum = []; checksum_ok = true; created_at = 0 }

-- The number of the messages and the one cached value.
abbrev World : Type 0
World = ℕ × Option Text

abbrev store : Store World
store = record {
  create = λ deadline text key w. (ok (message (w.0 + 1) text), (w.0 + 1, w.1));
  list = λ deadline w. (ok (message w.0 (codes "a") ∷ []), w);
}

abbrev one_value : Cache World
one_value = record {
  get = λ k w. (w.1, w);
  set = λ k v w. (w.0, some v);
  delete = λ k w. (w.0, none);
}

one_value-IsCache : IsCache one_value
one_value-IsCache = record { get-delete = λ k w. refl; get-set = λ k v w. refl }

abbrev api : Api World
api = record {
  store = store;
  ready = none;
  audit_log = none;
  cache = some one_value;
  count_created = λ w. w;
}

abbrev request : Request
request = record {
  query = [];
  header = [];
  path_value = [];
  content_length = pos 1;
  body = codes "x";
}

abbrev body_text : Text → Option Text
body_text body = some body

abbrev encoded : List Message → Option Text
encoded ms = some (codes "[]")

list_after_create_example :
    (let w' = (create_message api body_text request (3, some (codes "old"))).1 in
      ((create_message api body_text request (3, some (codes "old"))).0
        ≡ write_json [] 201 (message_body (message 4 (codes "x"))))
      × (list_messages api encoded w'
          ≡ answer_list (some one_value) encoded (service_list store w')))
unfolding is_blank is_space service_create validate_text is_empty trim_space trim_left
list_after_create_example =
    list_after_create api one_value one_value-IsCache body_text encoded request
      (3, some (codes "old")) (4, some (codes "old")) (codes "x") (message 4 (codes "x")) refl refl
      refl refl

list_after_list_example :
    (let (first, w') = list_messages api encoded (3, none) in
      (first
        ≡ write_json
            ((codes "X-Cache", codes "MISS") ∷ [])
            200
            (messages_body (message 3 (codes "a") ∷ [])))
      × (list_messages api encoded w' ≡ (hit_response (codes "[]"), w')))
unfolding service_list
list_after_list_example =
    list_after_list api one_value one_value-IsCache encoded (3, none) (3, none) (3, none)
      (message 3 (codes "a") ∷ []) (codes "[]") refl refl refl refl

-- A client of one file of five bytes, whatever the path.
abbrev client : Hdfs.Client
client = record {
  open_file = λ path. ok (codes "abcde", 5);
  seek = λ path n. ok (drop n (codes "abcde"));
  stat = λ path. ok (codes "f", 5);
  read_dir = λ path. ok [];
}

abbrev join : Text → Text → Text
join dir name = dir ++ b'/' ∷ name

abbrev hdfs : Hdfs.Store
hdfs = record { client = client; dir = codes "/files" }

abbrev no_put : Text → Text → ℕ → Result Object × ℕ
no_put name body w = (err lease_lost, w)
