-- ===== src/Text/Decimal.antt =====
-- strconv.ParseInt(s, 10, 64), which strconv.Atoi is on a 64-bit platform, and strconv.FormatInt.
use otus_app.Base.{
  ℕ, zero, suc, ◌+◌, ◌-◌, ◌*◌, ◌/◌, ◌%◌, ◌^◌, ◌≤◌, ◌<◌, ◌≡◌, refl, Bool, true, ◌&&◌, [], ◌∷◌, arith,
  leb, ltb, ◌==◌, if◌then◌else◌, Option, none, some, Bool-cases, inl, inr, ap, ltb→lt, lt→ltb, ◌∙◌,
  sym,
}
use otus_app.Base.Int.{ℤ, pos, negsuc, FitsInt64}
use otus_app.Text.{Text}
use native.Mathlib.Nat.{pow-suc}

unfoldable pub is_digit : ℕ → Bool
is_digit c = leb b'0' c && leb c b'9'

-- The digits that follow a value already read.
unfoldable pub parse_digits : ℕ → Text → Option ℕ
unfolding is_digit
parse_digits v [] = some v
parse_digits v (c ∷ cs) =
    let rest = parse_digits (v * 10 + (c - b'0')) cs in if is_digit c then rest else none

-- At least one digit.
unfoldable pub parse_nat : Text → Option ℕ
unfolding parse_digits
parse_nat [] = none
parse_nat (c ∷ cs) = parse_digits 0 (c ∷ cs)

-- A number of the int64 range: `none` is ErrSyntax or ErrRange.
abbrev pub in_range_pos : Option ℕ → Option ℤ
in_range_pos none = none
in_range_pos (some n) = if ltb n (2 ^ 63) then some (pos n) else none

abbrev pub negate : ℕ → ℤ
negate zero = pos 0
negate (suc n) = negsuc n

abbrev pub in_range_neg : Option ℕ → Option ℤ
in_range_neg none = none
in_range_neg (some n) = if leb n (2 ^ 63) then some (negate n) else none

unfoldable pub parse_int : Text → Option ℤ
unfolding parse_nat
parse_int [] = none
parse_int (c ∷ cs) =
    if c == b'-'
    then in_range_neg (parse_nat cs)
    else if c == b'+'
    then in_range_pos (parse_nat cs)
    else in_range_pos (parse_nat (c ∷ cs))

in_range_pos-FitsInt64 : (o : Option ℕ) (a : ℤ) → in_range_pos o ≡ some a → FitsInt64 a
in_range_pos-FitsInt64 o (pos n) h = ground arith
in_range_pos-FitsInt64 o (negsuc n) h = ground arith

in_range_neg-FitsInt64 : (o : Option ℕ) (a : ℤ) → in_range_neg o ≡ some a → FitsInt64 a
in_range_neg-FitsInt64 none a h = ground arith
in_range_neg-FitsInt64 (some zero) (pos n) h = ground arith
in_range_neg-FitsInt64 (some (suc m)) (pos n) h = ground arith
in_range_neg-FitsInt64 (some zero) (negsuc n) h = ground arith
in_range_neg-FitsInt64 (some (suc m)) (negsuc n) h = ground arith

-- What ParseInt returns without an error is an int64.
pub parse_int-FitsInt64 : (s : Text) (a : ℤ) → parse_int s ≡ some a → FitsInt64 a
unfolding parse_int
parse_int-FitsInt64 [] a h = absurd (ground arith)
parse_int-FitsInt64 (c ∷ cs) a h = elim (Bool-cases (c == b'-')) [
  | inl e ↦ in_range_neg-FitsInt64 (parse_nat cs) a (rw e at h)
  | inr e ↦ elim (Bool-cases (c == b'+')) [
    | inl f ↦ in_range_pos-FitsInt64 (parse_nat cs) a (rw (e, f) at h)
    | inr f ↦ in_range_pos-FitsInt64 (parse_nat (c ∷ cs)) a (rw (e, f) at h)
  ]
]

-- The digits of n in front of a text; a number below 10 ^ fuel has at most fuel digits.
unfoldable pub format_digits : ℕ → ℕ → Text → Text
format_digits zero n acc = acc
format_digits (suc f) n acc =
    let rest = format_digits f (n / 10) ((b'0' + n % 10) ∷ acc) in
    if ltb n 10 then (b'0' + n) ∷ acc else rest

-- An int64 has at most 19 digits.
unfoldable pub format_nat : ℕ → Text
unfolding format_digits
format_nat n = format_digits 20 n []

is_digit_of_lt : (d : ℕ) → d < 10 → is_digit (b'0' + d) ≡ true
unfolding is_digit
is_digit_of_lt d h = ground arith

-- One more digit.
parse_digits_step :
    (v d n : ℕ) (acc : Text)
    → d < 10
    → v * 10 + d ≡ n
    → parse_digits v ((b'0' + d) ∷ acc) ≡ parse_digits n acc
unfolding parse_digits
parse_digits_step v d n acc h e =
    rw (is_digit_of_lt d h) (ap (λ m. parse_digits m acc) (omega arith))

parse_digits-format_digits :
    (f n : ℕ) (acc : Text)
    → n < 10 ^ f
    → 0 < f
    → parse_digits 0 (format_digits f n acc) ≡ parse_digits n acc
unfolding format_digits
parse_digits-format_digits zero n acc h p = absurd (omega arith)
parse_digits-format_digits (suc f) n acc h p = elim (Bool-cases (ltb n 10)) [
  | inl small ↦ rw small (parse_digits_step 0 n n acc (ltb→lt n 10 small) (omega arith))
  | inr large ↦
      let g : 10 ≤ n = ground arith in
      let q : n < 10 ^ f * 10 = rw (pow-suc) at h in
      rw large (
        parse_digits-format_digits f (n / 10) ((b'0' + n % 10) ∷ acc) (omega arith)
          (pos_of_lt f n q g)
        ∙ parse_digits_step (n / 10) (n % 10) n acc (omega arith) (omega arith))
]
  where
    pos_of_lt : (f n : ℕ) → n < 10 ^ f * 10 → 10 ≤ n → 0 < f
    pos_of_lt zero n q g = absurd (omega arith)
    pos_of_lt (suc f) n q g = omega arith

format_digits_cons :
    (f n : ℕ) (acc : Text)
    → (c : ℕ) × (cs : Text) × (format_digits (suc f) n acc ≡ c ∷ cs) × (is_digit c ≡ true)
unfolding format_digits
format_digits_cons zero n acc = elim (Bool-cases (ltb n 10)) [
  | inl small ↦ rw small (b'0' + n, acc, refl, is_digit_of_lt n (ltb→lt n 10 small))
  | inr large ↦ rw large (b'0' + n % 10, acc, refl, is_digit_of_lt (n % 10) (omega arith))
]
format_digits_cons (suc f) n acc = elim (Bool-cases (ltb n 10)) [
  | inl small ↦ rw small (b'0' + n, acc, refl, is_digit_of_lt n (ltb→lt n 10 small))
  | inr large ↦ rw large (format_digits_cons f (n / 10) ((b'0' + n % 10) ∷ acc))
]

-- Only digits.
unfoldable pub all_digits : Text → Bool
all_digits [] = true
all_digits (c ∷ cs) = is_digit c && all_digits cs

format_digits-all_digits :
    (f n : ℕ) (acc : Text) → all_digits acc ≡ true → all_digits (format_digits f n acc) ≡ true
unfolding format_digits
format_digits-all_digits zero n acc h = h
format_digits-all_digits (suc f) n acc h = elim (Bool-cases (ltb n 10)) [
  | inl small ↦ rw small (unfold all_digits in rw (is_digit_of_lt n (ltb→lt n 10 small)) h)
  | inr large ↦ rw large (
      format_digits-all_digits f (n / 10) ((b'0' + n % 10) ∷ acc)
        (unfold all_digits in rw (is_digit_of_lt (n % 10) (omega arith)) h))
]

pub format_nat-all_digits : (n : ℕ) → all_digits (format_nat n) ≡ true
unfolding format_nat
format_nat-all_digits n = format_digits-all_digits 20 n [] (unfold all_digits in refl)

pub format_nat_cons :
    (n : ℕ) → (c : ℕ) × (cs : Text) × (format_nat n ≡ c ∷ cs) × (is_digit c ≡ true)
unfolding format_nat
format_nat_cons n = format_digits_cons 19 n []

pub parse_nat-format_nat : (n : ℕ) → n < 10 ^ 20 → parse_nat (format_nat n) ≡ some n
parse_nat-format_nat n h =
    let (c, cs, e, _) = format_nat_cons n in
    rw e (
      parse_nat_cons c cs
      ∙ ap (parse_digits 0) (sym e)
      ∙ unfold format_nat in
        parse_digits-format_digits 20 n [] h (omega arith) ∙ unfold parse_digits in refl)
  where
    parse_nat_cons : (c : ℕ) (cs : Text) → parse_nat (c ∷ cs) ≡ parse_digits 0 (c ∷ cs)
    parse_nat_cons c cs = unfold parse_nat in refl

parse_int_of_digit :
    (c : ℕ) (cs : Text) → is_digit c ≡ true → parse_int (c ∷ cs) ≡ in_range_pos (parse_nat (c ∷ cs))
unfolding parse_int is_digit
parse_int_of_digit c cs h = ground arith

-- Reading what FormatInt writes, for a number that is not negative.
pub parse_int-format_nat : (n : ℕ) → n < 2 ^ 63 → parse_int (format_nat n) ≡ some (pos n)
parse_int-format_nat n h =
    let (c, cs, e, d) = format_nat_cons n in
    let q : parse_nat (c ∷ cs) ≡ some n = rw (← e) (parse_nat-format_nat n (omega arith)) in
    rw e (parse_int_of_digit c cs d ∙ (rw q (rw (lt→ltb n (2 ^ 63) h))))
