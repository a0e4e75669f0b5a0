-- ===== src/Security/Keys.antt =====
-- When the signing keys are fetched and what the cache then holds.
use otus_app.Base.{
  ℕ, ◌-◌, ◌≤◌, ◌≡◌, refl, sym, List, [], ◌∷◌, Option, none, some, arith, ltb, inl, inr, ◌⊎◌,
  Option-cases, Bool-cases,
}
use otus_app.Text.{Text, lookup, is_empty}
use otus_app.Security.{
  Auth, RsaKey, Jwk, Jwks, document, unreachable, bad_status, KeyResult, key, KeyError, read_keys,
  replace_keys, refresh_keys, found_or, after_refresh, missing_key, cached_or, key_for,
  refresh_pause,
}

module _ (decode : Text → Option Text) where
  -- The state changed only by a whole new set of keys from the server's document, at least 30 seconds after
  -- the last one.
  abbrev pub Refreshed : ℕ → Jwks → Auth → Auth → Type 0
  Refreshed now answer a a' =
      (refresh_pause ≤ now - a.last_refresh)
      × ((ks : List Jwk) × (answer ≡ document ks)
          × (a'.keys ≡ read_keys decode ks [])
          × (a'.last_refresh ≡ now))

  refresh_keys-cases :
      (now : ℕ) (answer : Jwks) (a : Auth)
      → ((refresh_keys decode now answer a).1 ≡ a)
        ⊎ ((ks : List Jwk) × (answer ≡ document ks)
            × ((refresh_keys decode now answer a).1.keys ≡ read_keys decode ks [])
            × ((refresh_keys decode now answer a).1.last_refresh ≡ now))
  unfolding refresh_keys
  refresh_keys-cases now unreachable a = inl refl
  refresh_keys-cases now bad_status a = inl refl
  refresh_keys-cases now (document ks) a = replaced (read_keys decode ks []) refl
    where
      replaced :
          (keys : List (Text × RsaKey))
          → read_keys decode ks [] ≡ keys
          → ((replace_keys decode now keys a).1 ≡ a)
            ⊎ ((ks' : List Jwk) × (document ks ≡ document ks')
                × ((replace_keys decode now keys a).1.keys ≡ read_keys decode ks' [])
                × ((replace_keys decode now keys a).1.last_refresh ≡ now))
      replaced [] e = inl (unfold replace_keys in refl)
      replaced (k ∷ m) e = unfold replace_keys in inr (ks, refl, sym e, refl)

  after_refresh-state :
      (kid : Text) (r : Option KeyError × Auth)
      → ((after_refresh decode kid r).1 ≡ r.1)
        × ((k : RsaKey) → (after_refresh decode kid r).0 ≡ key k → lookup kid r.1.keys ≡ some k)
  unfolding after_refresh found_or
  after_refresh-state kid (some e, a) = (refl, λ k h. absurd (ground arith))
  after_refresh-state kid (none, a) = elim (Option-cases (lookup kid a.keys)) [
    | inl e ↦ (refl, λ k h. absurd (ground arith))
    | inr (v, e) ↦ (refl, λ k h. ground arith)
  ]

  abbrev pub Sound : Text → ℕ → Jwks → Auth → KeyResult × Auth → Type 0
  Sound kid now answer a (r, a') =
      ((a' ≡ a) ⊎ Refreshed now answer a a')
      × ((k : RsaKey) → r ≡ key k → lookup kid a'.keys ≡ some k)

  after_refresh-Sound :
      (kid : Text) (now : ℕ) (answer : Jwks) (a : Auth)
      → refresh_pause ≤ now - a.last_refresh
      → Sound kid now answer a (after_refresh decode kid (refresh_keys decode now answer a))
  after_refresh-Sound kid now answer a h =
      let r = refresh_keys decode now answer a in
      let (e, f) = after_refresh-state kid r in
      rw (e) (elim (refresh_keys-cases now answer a) [
        | inl g ↦ (inl g, f)
        | inr (ks, d, k, t) ↦ (inr (h, (ks, d, k, t)), f)
      ])

  missing_key-Sound :
      (kid : Text) (now : ℕ) (answer : Jwks) (a : Auth)
      → Sound kid now answer a (missing_key decode kid now answer a)
  unfolding missing_key
  missing_key-Sound kid now answer a =
      elim (Bool-cases (ltb (now - a.last_refresh) refresh_pause)) [
        | inl b ↦ rw b (inl refl, λ k h. absurd (ground arith))
        | inr b ↦ rw b (after_refresh-Sound kid now answer a (ground arith))
      ]

  cached_or-Sound :
      (kid : Text) (now : ℕ) (answer : Jwks) (a : Auth) (o : Option RsaKey)
      → lookup kid a.keys ≡ o
      → Sound kid now answer a (cached_or decode kid now answer a o)
  unfolding cached_or
  cached_or-Sound kid now answer a none e = missing_key-Sound kid now answer a
  cached_or-Sound kid now answer a (some k) e = (inl refl, λ j h. ground (arith, e))

  -- keyFor returns only a key that the cache then holds under the token's kid, and it leaves the
  -- cache as it was, or replaces it as a whole by the keys of the server's document, at least 30
  -- seconds after the last replacement.
  pub key_for-Sound :
      (kid : Text) (now : ℕ) (answer : Jwks) (a : Auth)
      → Sound kid now answer a (key_for decode kid now answer a)
  unfolding key_for
  key_for-Sound kid now answer a = elim (Bool-cases (is_empty kid)) [
    | inl b ↦ rw b (inl refl, λ k h. absurd (ground arith))
    | inr b ↦ rw b (cached_or-Sound kid now answer a (lookup kid a.keys) refl)
  ]
