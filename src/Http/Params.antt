-- ===== src/Http/Params.antt =====
-- internal/handlers/storage.go: the helpers that read parameters (backendParam, contentLength, intParam,
-- parseTags, splitTag, parseRange).
use otus_app.Base.{List, [], ◌∷◌, Option, none, some, Bool, true, false, ◌&&◌, not, if◌then◌else◌}
use otus_app.Base.Int.{ℤ, pos, negsuc, ◌+ℤ◌, ◌-ℤ◌, leb_ℤ, ltb_ℤ, wrap64}
use otus_app.Text.{Text, codes, is_empty, text_eq, cut, cut_prefix, insert}
use otus_app.Text.Trim.{trim_space}
use otus_app.Text.Split.{split}
use otus_app.Text.Decimal.{parse_int}

unfoldable pub backend_param : Text → Text
backend_param b = if text_eq b (codes "hdfs") then codes "hdfs" else codes "s3"

-- The size for the S3 client; -1 is an unknown size.
unfoldable pub content_length_param : ℤ → ℤ
content_length_param n = if ltb_ℤ (pos 0) n then n else negsuc 0

abbrev pub clamp_param : ℤ → ℤ → Option ℤ → ℤ
clamp_param fallback max none = fallback
clamp_param fallback max (some n) =
    if leb_ℤ n (pos 0) then fallback else if ltb_ℤ max n then max else n

unfoldable pub int_param : Text → ℤ → ℤ → ℤ
int_param raw fallback max =
    if is_empty raw then fallback else clamp_param fallback max (parse_int raw)

-- One pair of "k=v,k2=v2".
unfoldable pub add_tag : Text → List (Text × Text) → List (Text × Text)
add_tag pair tags =
    let (k, v, ok) = cut pair b'=' in
    if ok && not (is_empty (trim_space k)) then insert (trim_space k) (trim_space v) tags else tags

unfoldable pub add_tags : List Text → List (Text × Text) → List (Text × Text)
add_tags [] tags = tags
add_tags (pair ∷ pairs) tags = add_tags pairs (add_tag pair tags)

-- A nil map is the empty list.
unfoldable pub parse_tags : Text → List (Text × Text)
parse_tags raw = if is_empty (trim_space raw) then [] else add_tags (split raw b',') []

unfoldable pub split_tag : Text → Text × Text
split_tag raw =
    let (k, v, found) = cut (trim_space raw) b'=' in
    if is_empty (trim_space raw) then ([], []) else (trim_space k, trim_space v)

-- The length of a range whose end was parsed.
unfoldable pub range_to : ℤ → Option ℤ → ℤ × ℤ × Bool
range_to start none = (start, pos 0, true)
range_to start (some end) =
    if ltb_ℤ end start
    then (start, pos 0, true)
    else (start, wrap64 (wrap64 (end -ℤ start) +ℤ pos 1), true)

-- The start was parsed.
unfoldable pub range_from : Option ℤ → Text → ℤ × ℤ × Bool
range_from none end_raw = (pos 0, pos 0, false)
range_from (some start) end_raw =
    if ltb_ℤ start (pos 0)
    then (pos 0, pos 0, false)
    else if is_empty (trim_space end_raw)
    then (start, pos 0, true)
    else range_to start (parse_int (trim_space end_raw))

abbrev pub range_parts : Text × Text × Bool → ℤ × ℤ × Bool
range_parts (start_raw, end_raw, found) = range_from (parse_int (trim_space start_raw)) end_raw

unfoldable pub range_of : Option Text → ℤ × ℤ × Bool
range_of none = (pos 0, pos 0, false)
range_of (some raw) = range_parts (cut raw b'-')

-- "bytes=start-end" and "bytes=start-": the offset, the length, and whether there is a range. A length
-- of 0 reaches to the end of the file.
unfoldable pub parse_range : Text → ℤ × ℤ × Bool
parse_range header = range_of (cut_prefix (trim_space header) (codes "bytes="))
