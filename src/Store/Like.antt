-- ===== src/Store/Like.antt =====
-- The operator LIKE of SQLite, in the filters of internal/greyproxy/crud.go.
use greyproxy.Prelude.{
  ℕ, Bool, true, false, ◌&&◌, ◌||◌, Option, none, some, [], ◌∷◌, ◌++◌, ◌==◌, nat_eq, list_eq,
  if◌then◌else◌,
}
use greyproxy.Go.Strings.{Str, lower_char}

-- Some end of the text passes the test.
any_end : (Str → Bool) → Str → Bool
any_end f [] = f []
any_end f (c ∷ s) = f (c ∷ s) || any_end f s

on_char : ℕ → (Str → Bool) → Str → Bool
unfolding lower_char
on_char c f [] = false
on_char c f (x ∷ s) = (c == b'_' || lower_char c == lower_char x) && f s

-- `text LIKE pattern`: `%` stands for any text and `_` for any character.
unfoldable pub like : Str → Str → Bool
unfolding any_end on_char
like [] s = s == []
like (c ∷ pattern) s =
    let rest = like pattern in if c == b'%' then any_end rest s else on_char c rest s

-- `text LIKE "%"+f+"%"`, which is asked only if `f` is not empty.
unfoldable pub contains_like : Str → Str → Bool
unfolding like
contains_like [] text = true
contains_like (c ∷ f) text = like (b'%' ∷ (c ∷ f ++ b'%' ∷ [])) text

-- The same of a column that may be NULL.
abbrev pub contains_like? : Str → Option Str → Bool
contains_like? f none = false
contains_like? f (some text) = contains_like f text
