-- ===== src/ChaosProxy/Throttle.antt =====
-- The throttled copy writes the body in order, in chunks of a bounded size.
use otus_app.Base.{
  ℕ, zero, suc, ◌+◌, ◌/◌, ◌≤◌, ◌<◌, ◌≡◌, refl, List, [], ◌∷◌, ◌++◌, Option, none, some, arith,
  length, take, drop, max, ap, ◌∙◌, take-append-drop, length-drop, length-take,
}
use otus_app.Base.Int.{ℤ, pos_part}
use otus_app.Text.{Text}
use otus_app.ChaosProxy.{chunk_size, write_chunk, copy_chunks, join_chunks, copy_throttled}

abbrev sound : ℕ → Option ℕ
sound n = none

chunk_size_pos : (bps : ℤ) → 0 < chunk_size bps
unfolding chunk_size
chunk_size_pos bps = omega arith

copy_chunks-join :
    (chunk f n : ℕ) (bytes : Text)
    → 0 < chunk
    → length bytes ≤ f
    → join_chunks (copy_chunks sound chunk f n bytes) ≡ bytes
unfolding copy_chunks write_chunk
copy_chunks-join chunk zero n [] p h = refl
copy_chunks-join chunk zero n (b ∷ bs) p h = absurd (omega arith)
copy_chunks-join chunk (suc f) n [] p h = refl
copy_chunks-join chunk (suc f) n (b ∷ bs) p h =
    ap (λ r. take chunk (b ∷ bs) ++ r)
      (copy_chunks-join chunk f (n + 1) (drop chunk (b ∷ bs)) p
        (omega (arith, length-drop chunk (b ∷ bs))))
    ∙ take-append-drop chunk (b ∷ bs)

-- Every chunk is at most this long.
pub data Bounded (k : ℕ) : List Text → Type 0 where
  nil : Bounded k []
  cons : {c : Text} {cs : List Text} → length c ≤ k → Bounded k cs → Bounded k (c ∷ cs)

write_chunk-Bounded :
    (chunk : ℕ) (o : Option ℕ) (c : Text) (rest : List Text)
    → length c ≤ chunk
    → Bounded chunk rest
    → Bounded chunk (write_chunk o c rest)
unfolding write_chunk
write_chunk-Bounded chunk none c rest h k = cons h k
write_chunk-Bounded chunk (some n) c rest h k = cons (omega (arith, length-take n c)) nil

copy_chunks-Bounded :
    (broken : ℕ → Option ℕ) (chunk f n : ℕ) (bytes : Text)
    → Bounded chunk (copy_chunks broken chunk f n bytes)
unfolding copy_chunks
copy_chunks-Bounded broken chunk zero n bytes = nil
copy_chunks-Bounded broken chunk (suc f) n [] = nil
copy_chunks-Bounded broken chunk (suc f) n (b ∷ bs) =
    write_chunk-Bounded chunk (broken n) (take chunk (b ∷ bs)) _
      (omega (arith, length-take chunk (b ∷ bs)))
      (copy_chunks-Bounded broken chunk f (n + 1) (drop chunk (b ∷ bs)))

-- When no Write fails, copyThrottled writes exactly the bytes of the body, in pieces of at most
-- max(1, bps / 10) bytes, for every bps.
pub copy_throttled-eq :
    (bps : ℤ) (bytes : Text)
    → (copy_throttled (λ n. none) bps bytes ≡ bytes)
      × Bounded
          (max 1 (pos_part bps / 10))
          (copy_chunks (λ n. none) (chunk_size bps) (length bytes) 0 bytes)
unfolding copy_throttled chunk_size
copy_throttled-eq bps bytes = (
  copy_chunks-join (chunk_size bps) (length bytes) 0 bytes (chunk_size_pos bps) (omega arith),
  copy_chunks-Bounded (λ n. none) (chunk_size bps) (length bytes) 0 bytes,
)
