-- ===== src/Gateway/Forwarding.antt =====
-- Which headers reach the app.
use otus_app.Base.{
  ◌≡◌, refl, sym, true, false, [], ◌∷◌, ◌++◌, Option, none, some, arith, if◌then◌else◌, ap, ◌∙◌,
  inl, inr, Bool-cases,
}
use mathlib.Core.List.{append_assoc, append-nil}
use otus_app.Text.{Text, codes, text_eq, text_eq_refl, text_eq_iff, is_empty, lookup}
use otus_app.Text.Headers.{
  values_of, values_of-header_add, values_of-header_set, Header, header_add, equal_fold, header_set,
  header_value, first_value, lookup-header_set,
}
use otus_app.Gateway.{
  Incoming, is_hop_header, copy_headers, post, idempotency_key, forwarded_for, with_key,
  with_forwarded, outgoing, folds_to_any,
}

abbrev or_else : {A : Type 0} → Option A → Option A → Option A
or_else none o = o
or_else (some a) o = some a

lookup-header_add :
    (name value j : Text) (h : Header)
    → lookup j (header_add name value h)
      ≡ or_else (lookup j h) (if text_eq name j then some value else none)
unfolding header_add lookup
lookup-header_add name value j [] = ground arith
lookup-header_add name value j ((n, v) ∷ h) =
    ground (arith, lookup-header_add name value j h, text_eq_iff n j)

lookup-copy_headers :
    (j : Text) (dst src : Header)
    → lookup j (copy_headers dst src)
      ≡ or_else (lookup j dst) (if is_hop_header j then none else lookup j src)
unfolding copy_headers lookup
lookup-copy_headers j dst [] = ground arith
lookup-copy_headers j dst ((name, value) ∷ src) = elim (Bool-cases (is_hop_header name)) [
  | inl hop ↦ ground (arith, lookup-copy_headers j dst src, text_eq_iff name j)
  | inr end ↦ ground (
    arith,
    lookup-copy_headers j (header_add name value dst) src,
    text_eq_iff name j,
    lookup-header_add name value j dst,
  )
]

lookup-copied :
    (j : Text) (src : Header)
    → lookup j (copy_headers [] src) ≡ (if is_hop_header j then none else lookup j src)
lookup-copied j src = lookup-copy_headers j [] src ∙ nothing j
  where
    nothing :
        (j : Text)
        → or_else (lookup j []) (if is_hop_header j then none else lookup j src)
          ≡ (if is_hop_header j then none else lookup j src)
    nothing j = unfold lookup in refl

lookup-with_key :
    (method key j : Text) (h : Header)
    → text_eq idempotency_key j ≡ false
    → lookup j (with_key method key h) ≡ lookup j h
unfolding with_key
lookup-with_key method key j h e = ground (arith, lookup-header_set idempotency_key key j h)

lookup-with_forwarded :
    (host : Option Text) (prior j : Text) (h : Header)
    → text_eq forwarded_for j ≡ false
    → lookup j (with_forwarded host prior h) ≡ lookup j h
unfolding with_forwarded
lookup-with_forwarded none prior j h e = refl
lookup-with_forwarded (some host) prior j h e = ground (
  arith,
  lookup-header_set forwarded_for (if is_empty prior then host else prior ++ codes ", " ++ host) j
      h,
)

values_of-copy_headers :
    (j : Text) (dst src : Header)
    → values_of j (copy_headers dst src)
      ≡ values_of j dst ++ (if is_hop_header j then [] else values_of j src)
unfolding copy_headers values_of
values_of-copy_headers j dst [] = elim (Bool-cases (is_hop_header j)) [
  | inl h ↦ rw h (sym (append-nil (values_of j dst)))
  | inr h ↦ rw h (sym (append-nil (values_of j dst)))
]
values_of-copy_headers j dst ((name, value) ∷ src) = elim (Bool-cases (is_hop_header name)) [
  | inl hop ↦ rw hop (values_of-copy_headers j dst src ∙ hop_skipped name value j dst src hop)
  | inr end ↦ rw end (
      values_of-copy_headers j (header_add name value dst) src
      ∙ rw (values_of-header_add name value j dst) (value_added name value j dst src end))
]
  where
    hop_skipped :
        (name value j : Text) (dst src : Header)
        → is_hop_header name ≡ true
        → values_of j dst ++ (if is_hop_header j then [] else values_of j src)
          ≡ values_of j dst
            ++ (if is_hop_header j
                then []
                else (if text_eq name j then value ∷ values_of j src else values_of j src))
    hop_skipped name value j dst src hop = elim (Bool-cases (text_eq name j)) [
      | inr n ↦ rw n refl
      | inl y ↦ let same : name ≡ j = (text_eq_iff name j).0 y in rw (← same, hop) refl
    ]

    value_added :
        (name value j : Text) (dst src : Header)
        → is_hop_header name ≡ false
        → (values_of j dst ++ (if text_eq name j then value ∷ [] else []))
            ++ (if is_hop_header j then [] else values_of j src)
          ≡ values_of j dst
            ++ (if is_hop_header j
                then []
                else (if text_eq name j then value ∷ values_of j src else values_of j src))
    value_added name value j dst src end = elim (Bool-cases (text_eq name j)) [
      | inr n ↦ rw (n, append-nil (values_of j dst)) refl
      | inl y ↦
          let same : name ≡ j = (text_eq_iff name j).0 y in
          let h : is_hop_header j ≡ false = rw (← same) end in
          rw (y, h) (append_assoc (values_of j dst) (value ∷ []) (values_of j src))
    ]

values_of-with_key :
    (method key j : Text) (h : Header)
    → text_eq idempotency_key j ≡ false
    → values_of j (with_key method key h) ≡ values_of j h
unfolding with_key
values_of-with_key method key j h e = ground (arith, values_of-header_set idempotency_key key j h e)

values_of-with_forwarded :
    (host : Option Text) (prior j : Text) (h : Header)
    → text_eq forwarded_for j ≡ false
    → values_of j (with_forwarded host prior h) ≡ values_of j h
unfolding with_forwarded
values_of-with_forwarded none prior j h e = refl
values_of-with_forwarded (some host) prior j h e =
    values_of-header_set forwarded_for
      (if is_empty prior then host else prior ++ codes ", " ++ host) j h e

-- The names that forward itself sets are no hop headers, and differ.
own_names :
    (is_hop_header idempotency_key ≡ false)
    × (text_eq forwarded_for idempotency_key ≡ false)
    × (is_hop_header forwarded_for ≡ false)
    × (text_eq idempotency_key forwarded_for ≡ false)
unfolding is_hop_header folds_to_any equal_fold text_eq
own_names = (refl, refl, refl, refl)

module _ (split_host : Text → Option Text) (key method : Text) (r : Incoming) where
  abbrev sent_header : Header
  sent_header = (outgoing split_host key method r).header

  copied_key :
      header_value idempotency_key (copy_headers [] r.header)
      ≡ header_value idempotency_key r.header
  unfolding header_value
  copied_key =
      let hop = own_names.0 in
      ap first_value {y = lookup idempotency_key r.header}
        (lookup-copied idempotency_key r.header ∙ rw hop refl)

  with_key-value :
      text_eq method post ≡ true
      → header_value idempotency_key (with_key method key (copy_headers [] r.header)) ≡ (
          if is_empty (header_value idempotency_key r.header)
          then key
          else header_value idempotency_key r.header)
  unfolding with_key
  with_key-value m =
      rw (m, copied_key)
        (elim (Bool-cases (is_empty (header_value idempotency_key r.header))) [
          | inl e ↦ rw e (key_set (copy_headers [] r.header))
          | inr e ↦ rw e copied_key
        ])
    where
      key_set : (h : Header) → header_value idempotency_key (header_set idempotency_key key h) ≡ key
      key_set h =
          unfold header_value in
          ap first_value {y = some key} (
            lookup-header_set idempotency_key key idempotency_key h
            ∙ rw (text_eq_refl idempotency_key) refl)

  key_header :
      text_eq method post ≡ true
      → header_value idempotency_key (outgoing split_host key method r).header ≡ (
          if is_empty (header_value idempotency_key r.header)
          then key
          else header_value idempotency_key r.header)
  unfolding outgoing header_value
  key_header m =
      let (hop, differ, _, _) = own_names in
      let unchanged =
        lookup-with_forwarded (split_host r.remote_addr) (header_value forwarded_for r.header)
          idempotency_key (with_key method key (copy_headers [] r.header)) differ in
      ap first_value unchanged ∙ with_key-value m

  other_values :
      (j : Text)
      → text_eq idempotency_key j ≡ false
      → text_eq forwarded_for j ≡ false
      → values_of j sent_header ≡ (if is_hop_header j then [] else values_of j r.header)
  unfolding outgoing values_of
  other_values j e f =
      values_of-with_forwarded (split_host r.remote_addr) (header_value forwarded_for r.header) j
        (with_key method key (copy_headers [] r.header)) f
      ∙ values_of-with_key method key j (copy_headers [] r.header) e
      ∙ values_of-copy_headers j [] r.header

  own_name-ne-hop :
      (name j : Text) → is_hop_header name ≡ false → is_hop_header j ≡ true → text_eq name j ≡ false
  own_name-ne-hop name j f t = ground (arith, text_eq_iff name j)

  hop_header : (j : Text) → is_hop_header j ≡ true → values_of j sent_header ≡ []
  hop_header j h =
      let (a, _, b, _) = own_names in
      other_values j (own_name-ne-hop idempotency_key j a h) (own_name-ne-hop forwarded_for j b h)
      ∙ rw h refl

  -- The request that forward builds for a POST carries the client's Idempotency-Key if that is
  -- not empty and the given new key otherwise; it carries no value of a hop-by-hop header; and
  -- for every name but these, Idempotency-Key and X-Forwarded-For it carries all the values that
  -- the client sent, in their order.
  pub outgoing-header :
      text_eq method post ≡ true
      → (header_value idempotency_key sent_header ≡ (
          if is_empty (header_value idempotency_key r.header)
          then key
          else header_value idempotency_key r.header))
        × ((j : Text) → is_hop_header j ≡ true → values_of j sent_header ≡ [])
        × ((j : Text)
            → is_hop_header j ≡ false
            → text_eq idempotency_key j ≡ false
            → text_eq forwarded_for j ≡ false
            → values_of j sent_header ≡ values_of j r.header)
  outgoing-header m = (key_header m, hop_header, λ j h e f. other_values j e f ∙ rw h refl)
