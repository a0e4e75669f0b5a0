-- ===== src/Hdfs.antt =====
-- internal/hdfsstore/hdfsstore.go: Get, Stat and List over a client of HDFS, which is a parameter. The
-- bytes of a reader are what is left to read of it.
pub mod Writing
use otus_app.Base.{ℕ, Bool, List, [], ◌∷◌, if◌then◌else◌, ltb, take}
use otus_app.Base.Int.{ℤ, pos, negsuc}
use otus_app.Text.{Text}
use otus_app.Text.Path.{path_base}
use otus_app.Messaging.{Result, ok, err}

pub record File : Type 0 where
  pub name : Text
  pub path : Text
  pub size : ℕ

-- The client: Open gives the bytes of a file, which its Stat counts; Seek may fail; ReadDir gives names,
-- sizes and whether an entry is a directory.
pub record Client : Type 0 where
  pub open_file : Text → Result (Text × ℕ)
  pub seek : Text → ℕ → Result Text
  pub stat : Text → Result (Text × ℕ)
  pub read_dir : Text → Result (List (Text × ℕ × Bool))

pub record Store : Type 0 where
  pub client : Client
  pub dir : Text

-- io.LimitReader, for a positive length.
unfoldable pub limit_reader : ℤ → Text → Text
limit_reader (pos n) bytes = if ltb 0 n then take n bytes else bytes
limit_reader (negsuc n) bytes = bytes

-- The reader moved to a positive offset.
unfoldable pub seek_start : Client → Text → ℤ → Text → Result Text
seek_start c target (pos n) bytes = if ltb 0 n then c.seek target n else ok bytes
seek_start c target (negsuc n) bytes = ok bytes

unfoldable pub limited : ℤ → File → Result Text → Result (Text × File)
limited length meta (err e) = err e
limited length meta (ok bytes) = ok (limit_reader length bytes, meta)

module _ (join : Text → Text → Text) where
  -- path.Join(s.dir, path.Base(name)); `join` is path.Join.
  unfoldable pub full : Store → Text → Text
  full s name = join s.dir (path_base name)

  unfoldable pub opened : Store → Text → ℤ → ℤ → Result (Text × ℕ) → Result (Text × File)
  opened s name offset length (err e) = err e
  opened s name offset length (ok (bytes, size)) =
      limited length (record { name = path_base name; path = full s name; size = size })
        (seek_start s.client (full s name) offset bytes)

  unfoldable pub get : Store → Text → ℤ → ℤ → Result (Text × File)
  get s name offset length = opened s name offset length (s.client.open_file (full s name))

  unfoldable pub file_of : Text → Result (Text × ℕ) → Result File
  file_of path (err e) = err e
  file_of path (ok (name, size)) = ok (record { name = name; path = path; size = size })

  unfoldable pub stat : Store → Text → Result File
  stat s name = file_of (full s name) (s.client.stat (full s name))

  -- The entries that are no directories.
  unfoldable pub files_of : Store → List (Text × ℕ × Bool) → List File
  files_of s [] = []
  files_of s ((name, size, is_dir) ∷ entries) =
      let rest = files_of s entries in
      if is_dir then rest else (record { name = name; path = join s.dir name; size = size }) ∷ rest

  unfoldable pub listed : Store → Result (List (Text × ℕ × Bool)) → Result (List File)
  listed s (err e) = err e
  listed s (ok entries) = ok (files_of s entries)

  unfoldable pub list : Store → Result (List File)
  list s = listed s (s.client.read_dir s.dir)
