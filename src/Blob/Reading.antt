-- ===== src/Blob/Reading.antt =====
-- Which bytes Get reads.
use otus_app.Base.{
  ℕ, zero, suc, ◌+◌, ◌-◌, ◌^◌, ◌<◌, ◌≡◌, refl, true, false, ◌&&◌, ◌||◌, ◌==◌, Option, none, some,
  arith, take, drop, if◌then◌else◌, ltb, ap, sym, ◌∙◌,
}
use otus_app.Base.Int.{ℤ, pos, wrap64, wrap64-eq_of_FitsInt64, ltb_ℤ, leb_ℤ, ◌+ℤ◌, ◌-ℤ◌}
use otus_app.Text.{Text}
use otus_app.Messaging.{Result, ok, err, Error}
use otus_app.Blob.{last_offset}
use otus_app.Blob.Objects.{StoredObject, Client, Info, with_stat, opened_blob, get_range, get_blob}

-- The bytes of a range header that SetRange makes: from an offset on if the end is 0, and else from one offset
-- to another, both included.
unfoldable pub served : ℕ → ℕ → Text → Text
served first last bytes =
    if ltb 0 first && last == 0
    then drop first bytes
    else take (last - first + 1) (drop first bytes)

-- The first bytes up to a length, where 0 is no bound.
abbrev pub first_bytes : ℕ → Text → Text
first_bytes zero bytes = bytes
first_bytes (suc n) bytes = take (suc n) bytes

-- A client that serves what it is asked for (documented by S3), for the content of a version in a world.
pub record Serves {W : Type 0} (client : Client W) (content : Text → Text → W → Text) : Type 0 where
  pub whole :
      (key version bytes : Text) (w : W)
      → (client.get_object key version none w).0 ≡ ok bytes
      → bytes ≡ content key version w
  pub ranged :
      (key version bytes : Text) (first last : ℕ) (w : W)
      → (client.get_object key version (some (pos first, pos last)) w).0 ≡ ok bytes
      → bytes ≡ served first last (content key version w)

served-rest : (o : ℕ) (bytes : Text) → served (suc o) 0 bytes ≡ drop (suc o) bytes
unfolding served
served-rest o bytes = ground arith

served-part : (o n : ℕ) (bytes : Text) → served o (o + n) bytes ≡ take (suc n) (drop o bytes)
unfolding served
served-part o n bytes =
    rw (not_open o n)
      (ap (λ k. take k (drop o bytes)) {x = o + n - o + 1} {y = suc n} (omega arith))
  where
    not_open : (o n : ℕ) → (ltb 0 o && o + n == 0) ≡ false
    not_open o n = ground arith

plus : (a b : ℕ) → pos a +ℤ pos b ≡ pos (a + b)
unfolding ◌+ℤ◌
plus a b = ground arith

minus_one : (a n : ℕ) → pos (a + suc n) -ℤ pos 1 ≡ pos (a + n)
unfolding ◌-ℤ◌
minus_one a n = ground arith

first_pos : (o : ℕ) → (ltb_ℤ (pos 0) (pos (suc o)) || ltb_ℤ (pos 0) (pos 0)) ≡ true
first_pos o = ground arith

second_pos : (o n : ℕ) → (ltb_ℤ (pos 0) (pos o) || ltb_ℤ (pos 0) (pos (suc n))) ≡ true
second_pos o n = ground arith

last_offset-zero : (offset : ℕ) → last_offset (pos offset) (pos 0) ≡ pos 0
unfolding last_offset
last_offset-zero offset = refl

last_offset-pos :
    (offset n : ℕ)
    → offset + suc n < 2 ^ 63
    → last_offset (pos offset) (pos (suc n)) ≡ pos (offset + n)
unfolding last_offset
last_offset-pos offset n h =
    let f : pos offset +ℤ pos (suc n) ≡ pos (offset + suc n) = plus offset (suc n) in
    let g : wrap64 (pos (offset + suc n)) ≡ pos (offset + suc n) =
      wrap64-eq_of_FitsInt64 (pos (offset + suc n)) h in
    let k : pos (offset + suc n) -ℤ pos 1 ≡ pos (offset + n) = minus_one offset n in
    let l : wrap64 (pos (offset + n)) ≡ pos (offset + n) =
      wrap64-eq_of_FitsInt64 (pos (offset + n)) (omega arith) in
    not_open n (pos 0) _
    ∙ ap (λ z. wrap64 (wrap64 z -ℤ pos 1)) f
    ∙ ap (λ z. wrap64 (z -ℤ pos 1)) g
    ∙ ap wrap64 k
    ∙ l
  where
    not_open : (n : ℕ) (a b : ℤ) → (if leb_ℤ (pos (suc n)) (pos 0) then a else b) ≡ b
    not_open n a b = ground arith

module _ {W : Type 0} (client : Client W) (content : Text → Text → W → Text)
    (law : Serves client content) where
  -- What was read is what GetObject opened.
  with_stat-bytes :
      (bytes read : Text) (object : StoredObject) (r : Result Info × W)
      → (with_stat client bytes r).0 ≡ ok (read, object)
      → bytes ≡ read
  with_stat-bytes bytes read object (err e, w) h = absurd (ground arith)
  with_stat-bytes bytes read object (ok i, w) h = ap bytes_of h
    where
      bytes_of : Result (Text × StoredObject) → Text
      bytes_of (err e) = bytes
      bytes_of (ok (b, o)) = b

  opened_blob-bytes :
      (read : Text) (object : StoredObject) (r : Result Text × W)
      → (opened_blob client r).0 ≡ ok (read, object)
      → r.0 ≡ ok read
  opened_blob-bytes read object (err e, w) h = absurd (ground arith)
  opened_blob-bytes read object (ok bytes, w) h =
      ap ok (with_stat-bytes bytes read object (client.stat_opened w) h)

  get_range-bytes :
      (key version read : Text) (object : StoredObject) (first last : ℕ) (o : Option Error) (w : W)
      → (get_range client key version (pos first, pos last) o w).0 ≡ ok (read, object)
      → read ≡ served first last (content key version w)
  get_range-bytes key version read object first last (some e) w h = absurd (ground arith)
  get_range-bytes key version read object first last none w h =
      law.ranged key version read first last w (opened_blob-bytes read object _ h)

  -- A range is asked for.
  get_blob-ranged :
      (key version read : Text) (object : StoredObject) (offset length last : ℕ) (w : W)
      → last_offset (pos offset) (pos length) ≡ pos last
      → (ltb_ℤ (pos 0) (pos offset) || ltb_ℤ (pos 0) (pos length)) ≡ true
      → (get_blob client key version (pos offset) (pos length) w).0 ≡ ok (read, object)
      → read ≡ served offset last (content key version w)
  unfolding get_blob
  get_blob-ranged key version read object offset length last w e t h =
      get_range-bytes key version read object offset last (client.set_range (pos offset) (pos last))
        w (sym (rw (t, e) refl) ∙ h)

  -- With a client that serves what a range header asks for, and an offset and a length that are
  -- not negative and whose sum is below 2^63: what Get of S3 reads is the first length bytes of
  -- the content after the offset, and all bytes after the offset when the length is 0.
  pub get_blob-bytes :
      (key version read : Text) (object : StoredObject) (offset length : ℕ) (w : W)
      → offset + length < 2 ^ 63
      → (get_blob client key version (pos offset) (pos length) w).0 ≡ ok (read, object)
      → read ≡ first_bytes length (drop offset (content key version w))
  get_blob-bytes key version read object zero zero w b h =
      law.whole key version read w (
        opened_blob-bytes read object (client.get_object key version none w) (unfold get_blob in h))
  get_blob-bytes key version read object (suc o) zero w b h =
      get_blob-ranged key version read object (suc o) 0 0 w (last_offset-zero (suc o)) (first_pos o)
        h
      ∙ served-rest o (content key version w)
  get_blob-bytes key version read object o (suc n) w b h =
      get_blob-ranged key version read object o (suc n) (o + n) w (last_offset-pos o n b)
        (second_pos o n) h
      ∙ served-part o n (content key version w)
