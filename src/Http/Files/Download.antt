-- ===== src/Http/Files/Download.antt =====
-- What downloadFile answers when the file stands in HDFS.
use otus_app.Base.{ℕ, ◌≤◌, ◌≡◌, List, [], some, length, drop}
use otus_app.Base.Int.{pos}
use otus_app.Text.{Text, codes, lookup, insert}
use otus_app.Messaging.{Result, ok, err}
use otus_app.Hdfs
use otus_app.Http.{Response, file_bytes}
use otus_app.Http.Files.{Object, Files, version_header}

-- The files of HDFS behind the handler's port.
abbrev pub object_of : Hdfs.File → Object
object_of f = record { key = f.name; size = pos f.size; version_id = [] }

abbrev pub stat_of : Result Hdfs.File → Result Object
stat_of (err e) = err e
stat_of (ok f) = ok (object_of f)

abbrev pub get_of : Result (Text × Hdfs.File) → Result (Text × Object)
get_of (err e) = err e
get_of (ok (bytes, f)) = ok (bytes, object_of f)

module _ {W : Type 0} (join : Text → Text → Text) (s : Hdfs.Store) where
  -- The port, with the Put of the store as an argument.
  abbrev pub hdfs_port : (Text → Text → W → Result Object × W) → Files W
  hdfs_port put = record {
    put = put;
    get = λ name offset length w. (get_of (Hdfs.get join s name offset length), w);
    stat = λ name w. (stat_of (Hdfs.stat join s name), w);
  }

-- The client has the file under this path, and Seek moves its reader.
pub record Holds (c : Hdfs.Client) (path : Text) (name : Text) (bytes : Text) : Type 0 where
  pub opens : c.open_file path ≡ ok (bytes, length bytes)
  pub stats : c.stat path ≡ ok (name, length bytes)
  pub seeks : (n : ℕ) → n ≤ length bytes → c.seek path n ≡ ok (drop n bytes)

-- The headers of a range, with the values of Content-Length and Content-Range.
abbrev range_headers : Text → Text → List (Text × Text)
range_headers size range = insert (codes "Content-Length") size (
    insert (codes "Accept-Ranges") (codes "bytes") (
      insert (codes "Content-Range") range (
        insert (codes "X-Backend") (codes "hdfs")
          (insert (codes "Content-Type") (codes "application/octet-stream") (version_header [])))))

-- What a client is told about a range: the status, the bytes, Content-Length and Content-Range.
abbrev pub Announces : Response → Text → Text → Text → Type 0
Announces r bytes size range =
    (r.status ≡ 206)
    × (r.body ≡ file_bytes bytes)
    × (lookup (codes "Content-Length") r.header ≡ some size)
    × (lookup (codes "Content-Range") r.header ≡ some range)
