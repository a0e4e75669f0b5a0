-- ===== src/Text/Headers.antt =====
-- http.Header of net/http as the list of its fields, in the order in which they were added: Get, Add, Set
-- and Del at canonical names. strings.EqualFold on ASCII, which is all that a field name can hold.
use otus_app.Base.{
  ℕ, ◌+◌, ◌≡◌, Bool, ◌&&◌, leb, List, [], ◌∷◌, ◌++◌, Option, none, some, arith, map, if◌then◌else◌,
  ap, false, inl, inr, Bool-cases, refl,
}
use otus_app.Text.{Text, text_eq, lookup, text_eq_iff}

abbrev pub Header : Type 0
Header = List (Text × Text)

unfoldable pub header_del : Text → Header → Header
header_del name [] = []
header_del name ((n, v) ∷ h) =
    let rest = header_del name h in if text_eq n name then rest else (n, v) ∷ rest

unfoldable pub header_add : Text → Text → Header → Header
header_add name value h = h ++ (name, value) ∷ []

unfoldable pub header_set : Text → Text → Header → Header
header_set name value h = (name, value) ∷ header_del name h

-- Values(name): every value of a name, in order.
unfoldable pub values_of : Text → Header → List Text
values_of name [] = []
values_of name ((n, v) ∷ h) =
    let rest = values_of name h in if text_eq n name then v ∷ rest else rest

abbrev pub first_value : Option Text → Text
first_value none = []
first_value (some v) = v

unfoldable pub header_value : Text → Header → Text
header_value name h = first_value (lookup name h)

abbrev pub fold : ℕ → ℕ
fold c = if leb b'A' c && leb c b'Z' then c + 32 else c

unfoldable pub equal_fold : Text → Text → Bool
equal_fold s t = text_eq (map fold s) (map fold t)

pub lookup-header_del :
    (name j : Text) (h : Header)
    → lookup j (header_del name h) ≡ (if text_eq name j then none else lookup j h)
unfolding lookup header_del
lookup-header_del name j [] = ground arith
lookup-header_del name j ((n, v) ∷ h) =
    ground
      (arith, text_eq_iff name j, text_eq_iff n name, text_eq_iff n j, lookup-header_del name j h)

pub lookup-header_set :
    (name value j : Text) (h : Header)
    → lookup j (header_set name value h) ≡ (if text_eq name j then some value else lookup j h)
unfolding lookup header_set
lookup-header_set name value j h = ground (arith, lookup-header_del name j h)

pub values_of-header_add :
    (name value j : Text) (h : Header)
    → values_of j (header_add name value h)
      ≡ values_of j h ++ (if text_eq name j then value ∷ [] else [])
unfolding values_of header_add
values_of-header_add name value j [] = elim (Bool-cases (text_eq name j)) [
  | inl e ↦ rw e refl
  | inr e ↦ rw e refl
]
values_of-header_add name value j ((n, v) ∷ h) = elim (Bool-cases (text_eq n j)) [
  | inl e ↦ rw e (ap (λ vs. v ∷ vs) (values_of-header_add name value j h))
  | inr e ↦ rw e (values_of-header_add name value j h)
]

values_of-header_del :
    (name j : Text) (h : Header)
    → text_eq name j ≡ false
    → values_of j (header_del name h) ≡ values_of j h
unfolding values_of header_del
values_of-header_del name j [] e = refl
values_of-header_del name j ((n, v) ∷ h) e =
    ground (
      arith,
      text_eq_iff name j,
      text_eq_iff n name,
      text_eq_iff n j,
      values_of-header_del name j h,
    )

pub values_of-header_set :
    (name value j : Text) (h : Header)
    → text_eq name j ≡ false
    → values_of j (header_set name value h) ≡ values_of j h
unfolding values_of header_set
values_of-header_set name value j h e = rw e (values_of-header_del name j h e)
