-- ===== src/EndpointRegistry.antt =====
-- internal/greyproxy/endpoint_registry.go: which decoder reads the traffic of an endpoint (Match),
-- with the glob patterns of its rules. The rules stand in the order of the loaded cache.
pub mod Glob
pub mod Table
pub mod Best
pub mod Builtins
pub mod Refusals
pub mod Routing
use greyproxy.Prelude.{
  ℕ, String, Bool, true, false, not, ◌&&◌, ◌||◌, Option, none, some, List, [], ◌∷◌, ◌++◌, ◌==◌,
  list_eq, string_eq, if◌then◌else◌, length, drop, first, ℤ,
}
use greyproxy.Go.Strings.{Str, codes, has_prefix, has_suffix, has_char, split, cut_char}
use greyproxy.Go.Search.{cut}

pub record EndpointRule : Type 0 where
  pub id : ℕ
  pub host_pattern : Str
  pub path_pattern : Str
  pub method : String
  pub decoder_name : String
  pub priority : ℤ
  pub enabled : Bool
  pub user_defined : Bool

-- The text behind the scheme.
abbrev behind_scheme : Str → Option (Str × Str) → Str
behind_scheme url none = url
behind_scheme url (some (scheme, rest)) = rest

abbrev from_slash : Option (Str × Str) → Str
from_slash none = b'/' ∷ []
from_slash (some (host, path)) = b'/' ∷ path

abbrev pub before_query : Str → Option (Str × Str) → Str
before_query url none = url
before_query url (some (path, query)) = path

-- extractPath; where there is no slash, the path is `/`.
unfoldable pub extract_path : Str → Str
unfolding cut cut_char
extract_path url =
    let path = from_slash (cut_char b'/' (behind_scheme url (cut url (codes "://")))) in
    before_query path (cut_char b'?' path)

abbrev pub on_cut {ℓ} : {A : Type ℓ} → A → (Str → A) → Option (Str × Str) → A
on_cut missing k none = missing
on_cut missing k (some (before, behind)) = k behind

-- The loop over the middle parts, and the last part, which has to be a suffix.
unfoldable pub match_parts : List Str → Str → Bool
unfolding cut has_suffix
match_parts [] s = true
match_parts (part ∷ []) s = has_suffix s part
match_parts (part ∷ next ∷ parts) s = on_cut false (match_parts (next ∷ parts)) (cut s part)

abbrev pub match_first : List Str → Str → Bool
match_first [] s = true
match_first (part ∷ parts) s =
    if not (has_prefix s part) then false else match_parts parts (drop (length part) s)

-- matchGlob
unfoldable pub match_glob : Str → Str → Bool
unfolding match_parts has_prefix has_char split
match_glob pattern s =
    if not (has_char b'*' pattern) then pattern == s else match_first (split b'*' pattern) s

unfoldable pub rule_covers : Str → String → Str → EndpointRule → Bool
unfolding match_glob
rule_covers path method host r =
    (r.method == "*" || r.method == method)
    && match_glob r.host_pattern host
    && match_glob r.path_pattern path

abbrev pub decoder_of : Option EndpointRule → String
decoder_of none = ""
decoder_of (some r) = r.decoder_name

-- Match
unfoldable pub match_endpoint : Str → String → Str → List EndpointRule → String
unfolding extract_path rule_covers first
match_endpoint url method host rules =
    decoder_of (first (rule_covers (extract_path url) method host) rules)
