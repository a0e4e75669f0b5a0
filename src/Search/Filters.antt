-- ===== src/Search/Filters.antt =====
-- Which files the filters of SearchFiles select.
use otus_app.Base.{
  ◌≡◌, refl, Bool, true, false, ◌&&◌, ◌||◌, List, [], ◌∷◌, ◌++◌, Option, none, some, arith,
  if◌then◌else◌, Bool-cases, inl, inr, ◌∙◌,
}
use otus_app.Text.{Text, codes, cut_prefix, is_empty, text_eq, lookup}
use otus_app.Search.{
  FileDoc, Filter, exists, term, tag_filter, backend_filter, file_filters, is_some,
}

-- A field of a document by its name; the tags are one flattened field.
unfoldable pub field_of : Option Text → FileDoc → Text → Option Text
field_of (some tag) doc name = lookup tag doc.tags
field_of none doc name = if text_eq name (codes "backend") then some doc.backend else none

abbrev pub has_value : Option Text → Text → Bool
has_value none v = false
has_value (some w) v = text_eq w v

-- What a filter asks of a document.
unfoldable pub passes : FileDoc → Filter → Bool
passes doc (exists name) = is_some (field_of (cut_prefix name (codes "tags.")) doc name)
passes doc (term name v) = has_value (field_of (cut_prefix name (codes "tags.")) doc name) v

unfoldable pub passes_all : FileDoc → List Filter → Bool
passes_all doc [] = true
passes_all doc (f ∷ fs) = passes doc f && passes_all doc fs

-- The tag of this key is there and, if a value is named, has it.
abbrev pub tag_matches : Option Text → Text → Bool
tag_matches none v = false
tag_matches (some w) v = is_empty v || text_eq w v

unfoldable pub is_selected : Text → Text → Text → FileDoc → Bool
is_selected key v backend doc =
    (is_empty key || tag_matches (lookup key doc.tags) v)
    && (is_empty backend || text_eq doc.backend backend)

passes_all-append :
    (doc : FileDoc) (fs gs : List Filter)
    → passes_all doc (fs ++ gs) ≡ (passes_all doc fs && passes_all doc gs)
unfolding passes_all
passes_all-append doc [] gs = refl
passes_all-append doc (f ∷ fs) gs = ground (arith, passes_all-append doc fs gs)

passes_all-tag_filter :
    (key v : Text) (doc : FileDoc)
    → passes_all doc (tag_filter key v) ≡ (is_empty key || tag_matches (lookup key doc.tags) v)
unfolding passes_all passes tag_filter field_of cut_prefix
passes_all-tag_filter key v doc = elim (Bool-cases (is_empty key)) [
  | inl e ↦ rw e refl
  | inr e ↦ rw e (elim (Bool-cases (is_empty v)) [
    | inl b ↦ rw b (present (lookup key doc.tags) b)
    | inr b ↦ rw b (valued (lookup key doc.tags) b)
  ])
]
  where
    present : (o : Option Text) → is_empty v ≡ true → (is_some o && true) ≡ tag_matches o v
    present none b = refl
    present (some w) b = rw b refl

    valued : (o : Option Text) → is_empty v ≡ false → (has_value o v && true) ≡ tag_matches o v
    valued none b = refl
    valued (some w) b = ground arith

passes_all-backend_filter :
    (backend : Text) (doc : FileDoc)
    → passes_all doc (backend_filter backend) ≡ (is_empty backend || text_eq doc.backend backend)
unfolding passes_all passes backend_filter field_of cut_prefix text_eq
passes_all-backend_filter backend doc = ground arith

-- A document passes all filters that SearchFiles builds exactly when it has the named tag, with
-- the named value if one is given, and the named backend; what is empty in the request is not
-- asked for.
pub file_filters-is_selected :
    (key v backend : Text) (doc : FileDoc)
    → passes_all doc (file_filters key v backend) ≡ is_selected key v backend doc
unfolding file_filters is_selected
file_filters-is_selected key v backend doc =
    passes_all-append doc (tag_filter key v) (backend_filter backend)
    ∙ rw (passes_all-tag_filter key v doc, passes_all-backend_filter backend doc) refl
