-- ===== src/Text/Trim.antt =====
-- strings.TrimSpace.
use otus_app.Base.{
  ℕ, ◌≡◌, refl, ◌∙◌, Bool, true, false, ◌&&◌, ◌||◌, [], ◌∷◌, ◌++◌, reverse, arith, leb, ◌==◌,
  if◌then◌else◌, Bool-cases, inl, inr,
}
use otus_app.Text.{Text}
use mathlib.Core.List.{reverse-cons}

-- unicode.IsSpace: the white space of Latin-1 and the property White_Space above it.
unfoldable pub is_space : ℕ → Bool
is_space c =
    leb 0x09 c && leb c 0x0d
    || c == 0x20
    || c == 0x85
    || c == 0xa0
    || c == 0x1680
    || leb 0x2000 c && leb c 0x200a
    || c == 0x2028
    || c == 0x2029
    || c == 0x202f
    || c == 0x205f
    || c == 0x3000

unfoldable pub trim_left : Text → Text
trim_left [] = []
trim_left (x ∷ xs) = let rest = trim_left xs in if is_space x then rest else x ∷ xs

unfoldable pub trim_space : Text → Text
unfolding trim_left
trim_space s = reverse (trim_left (reverse (trim_left s)))

-- Every character is white space.
unfoldable pub is_blank : Text → Bool
is_blank [] = true
is_blank (x ∷ xs) = is_space x && is_blank xs

trim_left-blank : (s : Text) → is_blank s ≡ true → trim_left s ≡ []
unfolding trim_left is_blank
trim_left-blank [] h = refl
trim_left-blank (x ∷ xs) h = ground (arith, trim_left-blank xs)

-- What is left begins with a character that is no white space.
trim_left_head :
    (s : Text)
    → is_blank s ≡ false
    → (x : ℕ) × (t : Text) × (trim_left s ≡ x ∷ t) × (is_space x ≡ false)
unfolding trim_left is_blank
trim_left_head [] h = absurd (ground arith)
trim_left_head (x ∷ xs) h = elim (Bool-cases (is_space x)) [
  | inl e ↦ rw e (trim_left_head xs (rw e at h))
  | inr e ↦ rw e (x, xs, refl, e)
]

is_blank-append : (s t : Text) → is_blank (s ++ t) ≡ (is_blank s && is_blank t)
unfolding is_blank
is_blank-append [] t = ground arith
is_blank-append (x ∷ xs) t = ground (arith, is_blank-append xs t)

pub is_blank-reverse : (s : Text) → is_blank (reverse s) ≡ is_blank s
is_blank-reverse [] = refl
is_blank-reverse (x ∷ xs) =
    rw (reverse-cons x xs, is_blank-append (reverse xs) (x ∷ []), is_blank-reverse xs)
      (unfold is_blank in ground arith)

-- A text trims to "" exactly when it is blank.
pub trim_space-eq-nil : (s : Text) → is_blank s ≡ true → trim_space s ≡ []
unfolding trim_space
trim_space-eq-nil s h = rw (trim_left-blank s h)

snoc_cases : (s : Text) (y : ℕ) → (x : ℕ) × (t : Text) × (s ++ y ∷ [] ≡ x ∷ t)
snoc_cases [] y = (y, [], refl)
snoc_cases (x ∷ xs) y = (x, xs ++ y ∷ [], refl)

reverse_nonempty : (y : ℕ) (s : Text) → (x : ℕ) × (t : Text) × (reverse (y ∷ s) ≡ x ∷ t)
reverse_nonempty y s = rw (reverse-cons y s) (snoc_cases (reverse s) y)

is_blank_of_head : (x : ℕ) (t : Text) → is_space x ≡ false → is_blank (x ∷ t) ≡ false
unfolding is_blank
is_blank_of_head x t h = rw h

pub trim_space-ne-nil :
    (s : Text) → is_blank s ≡ false → (x : ℕ) × (t : Text) × (trim_space s ≡ x ∷ t)
unfolding trim_space
trim_space-ne-nil s h =
    let (x, t, e, sx) = trim_left_head s h in
    let b : is_blank (reverse (x ∷ t)) ≡ false =
      is_blank-reverse (x ∷ t) ∙ is_blank_of_head x t sx in
    let (y, u, e', sy) = trim_left_head (reverse (x ∷ t)) b in rw (e, e') (reverse_nonempty y u)
