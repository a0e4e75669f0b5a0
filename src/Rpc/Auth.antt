-- ===== src/Rpc/Auth.antt =====
-- Which calls the authorization of the gRPC service lets through.
use otus_app.Base.{
  ℕ, ◌≡◌, refl, true, false, List, [], ◌∷◌, ◌++◌, Option, none, some, arith, ◌⊎◌, inl, inr,
  Option-cases, ap, ◌∙◌, Bool-cases, ◌==◌,
}
use otus_app.Text.{Text, codes, is_empty, cut_prefix}
use otus_app.Rpc.{
  check_auth, check_values, check_token, is_protected, with_auth, resume, Reply, failure, Status,
}

cut_prefix-some : (s p r : Text) → cut_prefix s p ≡ some r → s ≡ p ++ r
unfolding cut_prefix
cut_prefix-some s [] r h = ground arith
cut_prefix-some [] (c ∷ p) r h = absurd (ground arith)
cut_prefix-some (x ∷ s) (c ∷ p) r h = elim (Bool-cases (x == c)) [
  | inl e ↦ ground (arith, cut_prefix-some s p r (rw e at h))
  | inr e ↦ absurd (ground arith)
]

-- A Bearer token that Validate accepts stands first.
abbrev pub HasValidToken : (Text → Option ℕ) → List Text → Type 0
HasValidToken validate values =
    (raw : Text) × (rest : List Text) × (values ≡ (codes "Bearer " ++ raw) ∷ rest)
    × (is_empty raw ≡ false)
    × (validate raw ≡ none)

check_token-none :
    (validate : Text → Option ℕ) (o : Option Text)
    → check_token validate o ≡ none
    → (raw : Text) × (o ≡ some raw) × (is_empty raw ≡ false) × (validate raw ≡ none)
unfolding check_token
check_token-none validate none h = absurd (ground arith)
check_token-none validate (some raw) h = elim (Bool-cases (is_empty raw)) [
  | inl e ↦ absurd (ground arith)
  | inr e ↦ elim (Option-cases (validate raw)) [
    | inl f ↦ (raw, refl, e, f)
    | inr (a, f) ↦ absurd (ground arith)
  ]
]

pub check_values-none :
    (validate : Text → Option ℕ) (values : List Text)
    → check_values validate values ≡ none
    → HasValidToken validate values
unfolding check_values
check_values-none validate [] h = absurd (ground arith)
check_values-none validate (v ∷ vs) h =
    let (raw, e, f, g) = check_token-none validate (cut_prefix v (codes "Bearer ")) h in
    (raw, vs, ap (λ t. t ∷ vs) (cut_prefix-some v (codes "Bearer ") raw e), f, g)

check_auth_protected :
    (validate : Text → Option ℕ) (method : Text) (values : List Text)
    → is_protected method ≡ true
    → check_auth (some validate) method values ≡ check_values validate values
unfolding check_auth
check_auth_protected validate method values h = rw h

-- For a protected method, with authorization configured: either the first authorization value is
-- Bearer and a non-empty token that Validate accepts, or the call is answered with a status and
-- the state does not change.
pub with_auth_protected :
    {S A : Type 0} (validate : Text → Option ℕ) (method : Text) (values : List Text)
    (handler : S → Reply A × S) (s : S)
    → is_protected method ≡ true
    → HasValidToken validate values
      ⊎ ((e : Status) × (with_auth (some validate) method values handler s ≡ (failure e, s)))
unfolding with_auth resume
with_auth_protected validate method values handler s h =
    elim (Option-cases (check_values validate values)) [
      | inl e ↦ inl (check_values-none validate values e)
      | inr (a, e) ↦
          inr (a, ap (λ o. resume o handler s) (check_auth_protected validate method values h ∙ e))
    ]

cut_prefix-append : (p r : Text) → cut_prefix (p ++ r) p ≡ some r
unfolding cut_prefix
cut_prefix-append [] r = refl
cut_prefix-append (c ∷ p) r = ground (arith, cut_prefix-append p r)

check_values-HasValidToken :
    (validate : Text → Option ℕ) (values : List Text)
    → HasValidToken validate values
    → check_values validate values ≡ none
unfolding check_values check_token
check_values-HasValidToken validate values (raw, rest, e, f, g) =
    rw (e, cut_prefix-append (codes "Bearer ") raw, f, g)

check_auth-HasValidToken :
    (validate : Text → Option ℕ) (method : Text) (values : List Text)
    → HasValidToken validate values
    → check_auth (some validate) method values ≡ none
unfolding check_auth
check_auth-HasValidToken validate method values h =
    ground (arith, check_values-HasValidToken validate values h)

-- With a valid token the handler runs, whatever the method.
pub with_auth_valid :
    {S A : Type 0} (validate : Text → Option ℕ) (method : Text) (values : List Text)
    (handler : S → Reply A × S) (s : S)
    → HasValidToken validate values
    → with_auth (some validate) method values handler s ≡ handler s
unfolding with_auth resume
with_auth_valid validate method values handler s h =
    ap (λ o. resume o handler s) (check_auth-HasValidToken validate method values h)
