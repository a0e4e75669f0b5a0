-- ===== src/Text/Split.antt =====
-- strings.Split at a separator of one character.
use otus_app.Base.{ℕ, List, [], ◌∷◌, ◌==◌, if◌then◌else◌}
use otus_app.Text.{Text}

-- A character goes to the front of the first piece.
abbrev pub onto_first : ℕ → List Text → List Text
onto_first c [] = (c ∷ []) ∷ []
onto_first c (p ∷ ps) = (c ∷ p) ∷ ps

unfoldable pub split : Text → ℕ → List Text
split [] sep = [] ∷ []
split (x ∷ xs) sep = let rest = split xs sep in if x == sep then [] ∷ rest else onto_first x rest
