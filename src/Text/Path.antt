-- ===== src/Text/Path.antt =====
-- path.Base.
use otus_app.Base.{[], ◌∷◌, ◌==◌, reverse, if◌then◌else◌}
use otus_app.Text.{Text, codes, is_empty, cut}

-- The part after the last slash of a text without slashes at its end.
unfoldable pub after_last_slash : Text → Text
after_last_slash [] = []
after_last_slash (c ∷ cs) =
    let (before, after, found) = cut cs b'/' in
    let rest = after_last_slash cs in
    if c == b'/' then (if found then rest else cs) else if found then rest else c ∷ cs

-- The text without slashes at its front.
unfoldable pub strip_slashes : Text → Text
strip_slashes [] = []
strip_slashes (c ∷ cs) = let rest = strip_slashes cs in if c == b'/' then rest else c ∷ cs

-- path.Base.
unfoldable pub path_base : Text → Text
path_base s =
    if is_empty s
    then codes "."
    else if is_empty (strip_slashes s)
    then codes "/"
    else after_last_slash (reverse (strip_slashes (reverse s)))
