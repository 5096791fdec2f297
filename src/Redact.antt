-- ===== src/Redact.antt =====
-- internal/greyproxy/redact.go: the values of sensitive headers are replaced before they are stored.
-- A header is an association list; each key stands once.
pub mod Sensitive
use greyproxy.Prelude.{
  ℕ, Bool, true, false, not, ◌&&◌, ◌||◌, Option, none, some, List, [], ◌∷◌, ◌++◌, map, ◌==◌,
  list_eq, if◌then◌else◌, any,
}
use greyproxy.Go.Strings.{Str, codes, has_prefix, has_suffix, to_lower, trim_space, trim_char}
use greyproxy.Go.Search.{contains}

abbrev pub redacted_value : Str
redacted_value = codes "[REDACTED]"

abbrev pub default_redacted_headers : List Str
default_redacted_headers =
    codes "Authorization"
    ∷ codes "Proxy-Authorization"
    ∷ codes "Cookie"
    ∷ codes "Set-Cookie"
    ∷ codes "*api-key*"
    ∷ codes "*token*"
    ∷ codes "*secret*"
    ∷ []

-- A pattern is added unless it was seen.
unfoldable pub add_pattern : List Str → Str → List Str
unfolding any
add_pattern patterns low = if any (λ p. p == low) patterns then patterns else patterns ++ low ∷ []

add_defaults : List Str → List Str → List Str
unfolding add_pattern to_lower
add_defaults patterns [] = patterns
add_defaults patterns (p ∷ ps) = add_defaults (add_pattern patterns (to_lower p)) ps

-- An extra pattern that is blank is left out.
add_extras : List Str → List Str → List Str
unfolding add_pattern to_lower trim_space
add_extras patterns [] = patterns
add_extras patterns (p ∷ ps) =
    let low = to_lower (trim_space p) in
    add_extras (if low == [] then patterns else add_pattern patterns low) ps

-- NewHeaderRedactor
unfoldable pub new_header_redactor : List Str → List Str
unfolding add_defaults add_extras
new_header_redactor extra = add_extras (add_defaults [] default_redacted_headers) extra

-- matchPattern
unfoldable pub match_pattern : Str → Str → Bool
unfolding has_prefix has_suffix trim_char contains
match_pattern p name =
    let star_prefix = has_prefix p (b'*' ∷ []) in
    let star_suffix = has_suffix p (b'*' ∷ []) in
    let core = trim_char b'*' p in
    if core == []
    then star_prefix || star_suffix
    else if star_prefix && star_suffix
    then contains name core
    else if star_prefix
    then has_suffix name core
    else if star_suffix
    then has_prefix name core
    else name == core

-- isSensitive
unfoldable pub is_sensitive : List Str → Str → Bool
unfolding match_pattern to_lower any
is_sensitive patterns name = any (λ p. match_pattern p (to_lower name)) patterns

abbrev pub Header : Type 0
Header = List (Str × List Str)

-- Redact
unfoldable pub redact : List Str → Header → Header
unfolding is_sensitive
redact patterns [] = []
redact patterns ((key, vals) ∷ h) =
    (key, if is_sensitive patterns key then redacted_value ∷ [] else vals) ∷ redact patterns h
