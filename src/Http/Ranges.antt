-- ===== src/Http/Ranges.antt =====
-- What parseRange reads from the header of a well-formed request.
use otus_app.Base.{
  ℕ, suc, ◌-◌, ◌^◌, ◌≤◌, ◌<◌, ◌≡◌, refl, Bool, true, ◌&&◌, not, [], ◌∷◌, ◌++◌, reverse, arith, some,
  ap, ◌∙◌,
}
use otus_app.Base.Int.{pos, ◌+ℤ◌, ◌-ℤ◌, wrap64, wrap64-eq_of_FitsInt64}
use otus_app.Text.{Text, codes, cut, cut_prefix, is_empty}
use otus_app.Text.Trim.{trim_space, trim_left, is_space}
use otus_app.Text.Decimal.{
  is_digit, all_digits, format_nat, format_nat-all_digits, format_nat_cons, parse_int,
  parse_int-format_nat,
}
use otus_app.Http.Params.{parse_range, range_of, range_parts, range_from, range_to}
use mathlib.Core.List.{reverse-cons, reverse-reverse}

-- A text without white space.
unfoldable pub no_space : Text → Bool
no_space [] = true
no_space (c ∷ cs) = not (is_space c) && no_space cs

trim_left-no_space : (s : Text) → no_space s ≡ true → trim_left s ≡ s
unfolding trim_left no_space
trim_left-no_space [] h = refl
trim_left-no_space (c ∷ cs) h = ground arith

no_space-append : (s t : Text) → no_space (s ++ t) ≡ (no_space s && no_space t)
unfolding no_space
no_space-append [] t = ground arith
no_space-append (c ∷ cs) t = ground (arith, no_space-append cs t)

no_space-reverse : (s : Text) → no_space (reverse s) ≡ no_space s
no_space-reverse [] = refl
no_space-reverse (c ∷ cs) =
    rw (reverse-cons c cs, no_space-append (reverse cs) (c ∷ []), no_space-reverse cs)
      (unfold no_space in ground arith)

trim_space-no_space : (s : Text) → no_space s ≡ true → trim_space s ≡ s
unfolding trim_space
trim_space-no_space s h =
    rw (trim_left-no_space s h, trim_left-no_space (reverse s) (no_space-reverse s ∙ h))
      (reverse-reverse s)

no_space-of-digits : (s : Text) → all_digits s ≡ true → no_space s ≡ true
unfolding no_space all_digits is_digit is_space
no_space-of-digits [] h = refl
no_space-of-digits (c ∷ cs) h = ground (arith, no_space-of-digits cs)

cut-digits : (s t : Text) → all_digits s ≡ true → cut (s ++ b'-' ∷ t) b'-' ≡ (s, t, true)
unfolding cut all_digits is_digit
cut-digits [] t h = refl
cut-digits (c ∷ cs) t h = ground (arith, cut-digits cs t)

trim_space-format_nat : (n : ℕ) → trim_space (format_nat n) ≡ format_nat n
trim_space-format_nat n =
    trim_space-no_space (format_nat n) (no_space-of-digits (format_nat n) (format_nat-all_digits n))

cut_prefix-bytes : (t : Text) → cut_prefix (codes "bytes=" ++ t) (codes "bytes=") ≡ some t
unfolding cut_prefix
cut_prefix-bytes t = refl

no_space-bytes : (t : Text) → no_space t ≡ true → no_space (codes "bytes=" ++ t) ≡ true
unfolding no_space is_space
no_space-bytes t h = ground arith

no_space-parts :
    (a : ℕ) (end : Text) → no_space end ≡ true → no_space (format_nat a ++ b'-' ∷ end) ≡ true
no_space-parts a end h =
    rw
      (
        no_space-append (format_nat a) (b'-' ∷ end),
        no_space-of-digits (format_nat a) (format_nat-all_digits a),
      )
      (unfold no_space is_space in ground arith)

range_of-digits :
    (s end : Text)
    → all_digits s ≡ true
    → range_of (some (s ++ b'-' ∷ end)) ≡ range_from (parse_int (trim_space s)) end
unfolding range_of
range_of-digits s end h = ap range_parts (cut-digits s end h)

-- The range of a header without white space is that of its parts.
parse_range-parts :
    (a : ℕ) (end : Text)
    → no_space end ≡ true
    → parse_range (codes "bytes=" ++ format_nat a ++ b'-' ∷ end)
      ≡ range_from (parse_int (format_nat a)) end
unfolding parse_range
parse_range-parts a end h =
    ap (λ t. range_of (cut_prefix t (codes "bytes=")))
      (trim_space-no_space (codes "bytes=" ++ format_nat a ++ b'-' ∷ end)
        (no_space-bytes (format_nat a ++ b'-' ∷ end) (no_space-parts a end h)))
    ∙ ap range_of (cut_prefix-bytes (format_nat a ++ b'-' ∷ end))
    ∙ range_of-digits (format_nat a) end (format_nat-all_digits a)
    ∙ ap (λ t. range_from (parse_int t) end) (trim_space-format_nat a)

range_from-open : (a : ℕ) → range_from (some (pos a)) [] ≡ (pos a, pos 0, true)
unfolding range_from is_empty
range_from-open a = ground (arith, trim_nil)
  where
    trim_nil : trim_space [] ≡ []
    trim_nil = unfold trim_space trim_left in refl

-- "bytes=a-" is read back as the offset a with no bound.
pub parse_range-open :
    (a : ℕ)
    → a < 2 ^ 63
    → parse_range (codes "bytes=" ++ format_nat a ++ b'-' ∷ []) ≡ (pos a, pos 0, true)
parse_range-open a h =
    parse_range-parts a [] (unfold no_space in refl)
    ∙ ap (λ o. range_from o []) (parse_int-format_nat a h)
    ∙ range_from-open a

sub_pos : (a b : ℕ) → a ≤ b → pos b -ℤ pos a ≡ pos (b - a)
unfolding ◌-ℤ◌
sub_pos a b h = ground arith

add_one : (n : ℕ) → pos n +ℤ pos 1 ≡ pos (suc n)
unfolding ◌+ℤ◌
add_one n = ground arith

range_to-closed :
    (a b : ℕ)
    → b < 2 ^ 63
    → a ≤ b
    → range_to (pos a) (some (pos b)) ≡ (pos a, wrap64 (pos (suc (b - a))), true)
unfolding range_to
range_to-closed a b h g =
    rw (sub_pos a b g, wrap64-eq_of_FitsInt64 (pos (b - a)) (omega arith), add_one (b - a))
      (ground arith)

range_from-closed :
    (a b : ℕ)
    → b < 2 ^ 63
    → a ≤ b
    → range_from (some (pos a)) (format_nat b) ≡ (pos a, wrap64 (pos (suc (b - a))), true)
unfolding range_from is_empty
range_from-closed a b h g =
    let (c, cs, e, _) = format_nat_cons b in
    let q : trim_space (format_nat b) ≡ c ∷ cs = trim_space-format_nat b ∙ e in
    let p : parse_int (c ∷ cs) ≡ some (pos b) = rw (← e) (parse_int-format_nat b h) in
    ground (arith, q, p, range_to-closed a b h g)

-- For a ≤ b < 2^63, the header bytes=a-b is read as the offset a and the length b - a + 1 in the
-- arithmetic of int64, which is the length itself when it is below 2^63.
pub parse_range-closed :
    (a b : ℕ)
    → b < 2 ^ 63
    → a ≤ b
    → (parse_range (codes "bytes=" ++ format_nat a ++ b'-' ∷ format_nat b)
        ≡ (pos a, wrap64 (pos (suc (b - a))), true))
      × (suc (b - a) < 2 ^ 63 → wrap64 (pos (suc (b - a))) ≡ pos (suc (b - a)))
parse_range-closed a b h g = (
  parse_range-parts a (format_nat b) (no_space-of-digits (format_nat b) (format_nat-all_digits b))
      ∙ ap (λ o. range_from o (format_nat b)) (parse_int-format_nat a (omega arith))
      ∙ range_from-closed a b h g,
  λ f. wrap64-eq_of_FitsInt64 (pos (suc (b - a))) f,
)
