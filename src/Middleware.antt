-- ===== src/Middleware.antt =====
-- internal/greyproxy/middleware: the rules by which the proxy asks middlewares and takes their
-- answers (cascade.go, filter.go). Maps are association lists in the order in which Go ranges over
-- them. Regular expressions are a parameter: the predicates of those that compile.
pub mod Version
pub mod Rewrite
pub mod Filter
pub mod Pending
pub mod Drain
use greyproxy.Prelude.{
  ℕ, ◌+◌, ◌-◌, String, Bool, true, false, not, ◌&&◌, ◌||◌, Option, none, some, List, [], ◌∷◌, ◌++◌,
  leb, ◌==◌, nat_eq, list_eq, string_eq, if◌then◌else◌, ℤ, pos, leb_ℤ, int_eq, any, keep,
}
use greyproxy.Go.Strings.{Str, codes, has_prefix, has_suffix, to_lower, trim_space, cut_char}
use greyproxy.Go.Filepath

abbrev pub lt_ℤ : ℤ → ℤ → Bool
lt_ℤ a b = not (leb_ℤ b a)

-- negotiateVersion behind the default; `none` is an error.
unfoldable pub negotiate_range : ℤ → ℤ → ℤ → Option ℤ
negotiate_range proxy_version mw_min mw_max =
    if lt_ℤ mw_min (pos 1) || lt_ℤ mw_max mw_min
    then none
    else if lt_ℤ proxy_version mw_min
    then none
    else if lt_ℤ mw_max (pos 1)
    then none
    else some (if lt_ℤ mw_max proxy_version then mw_max else proxy_version)

-- negotiateVersion; a middleware that declares nothing speaks version 1.
unfoldable pub negotiate_version : ℤ → ℤ → ℤ → Option ℤ
unfolding negotiate_range
negotiate_version proxy_version mw_min mw_max =
    if mw_min == pos 0 && mw_max == pos 0
    then negotiate_range proxy_version (pos 1) (pos 1)
    else negotiate_range proxy_version mw_min mw_max

-- `http.CanonicalHeaderKey`: a letter at the start and behind a dash is upper case, the others lower
-- case; a key with a character that a token does not have is left alone.
is_alpha_num : ℕ → Bool
is_alpha_num c =
    (leb b'a' c && leb c b'z') || (leb b'A' c && leb c b'Z') || (leb b'0' c && leb c b'9')

is_token_char : ℕ → Bool
unfolding is_alpha_num any
is_token_char c = is_alpha_num c || any (λ d. c == d) (codes "!#$%&'*+-.^_`|~")

canonical_char : Bool → ℕ → ℕ
canonical_char upper c =
    if upper && leb b'a' c && leb c b'z'
    then c - 32
    else if not upper && leb b'A' c && leb c b'Z'
    then c + 32
    else c

canonical_from : Bool → Str → Str
unfolding canonical_char
canonical_from upper [] = []
canonical_from upper (c ∷ s) = canonical_char upper c ∷ canonical_from (c == b'-') s

unfoldable pub canonical_header_key : Str → Str
unfolding is_token_char canonical_from any
canonical_header_key key =
    if any (λ c. not (is_token_char c)) key then key else canonical_from true key

abbrev pub forbidden_rewrite_headers : List Str
forbidden_rewrite_headers =
    codes "Connection"
    ∷ codes "Keep-Alive"
    ∷ codes "Proxy-Authenticate"
    ∷ codes "Proxy-Authorization"
    ∷ codes "Te"
    ∷ codes "Trailer"
    ∷ codes "Transfer-Encoding"
    ∷ codes "Upgrade"
    ∷ codes "Authorization"
    ∷ codes "Cookie"
    ∷ codes "Set-Cookie"
    ∷ codes "Host"
    ∷ []

unfoldable pub is_forbidden : Str → Bool
unfolding any
is_forbidden key = any (λ f. f == key) forbidden_rewrite_headers

abbrev pub Header : Type 0
Header = List (Str × List Str)

-- `dst[key]`
unfoldable pub values_of : Str → Header → Option (List Str)
values_of key [] = none
values_of key ((k, v) ∷ h) = if k == key then some v else values_of key h

-- `dst[key] = v`
unfoldable pub set_values : Str → List Str → Header → Header
unfolding keep
set_values key v h = (key, v) ∷ keep (λ (k, w). not (k == key)) h

pub record Merged : Type 0 where
  pub dst : Header
  pub applied : List Str
  pub rejected : List Str

-- One step of the loop, under the canonical key.
unfoldable pub merge_header : Str → List Str → Merged → Merged
unfolding is_forbidden set_values
merge_header canonical v m =
    if is_forbidden canonical
    then record m { rejected = m.rejected ++ canonical ∷ [] }
    else record m { dst = set_values canonical v m.dst; applied = m.applied ++ canonical ∷ [] }

-- MergeRewriteHeaders
unfoldable pub merge_rewrite_headers : Header → Merged → Merged
unfolding canonical_header_key merge_header
merge_rewrite_headers [] m = m
merge_rewrite_headers ((k, v) ∷ src) m =
    merge_rewrite_headers src (merge_header (canonical_header_key k) v m)

-- ActionForTimeoutKind
unfoldable pub action_for_timeout_kind : String → Bool → String
action_for_timeout_kind on_timeout is_response =
    if on_timeout == "allow"
    then (if is_response then "passthrough" else "allow")
    else if is_response
    then "block"
    else "deny"

-- IsKnownAction
unfoldable pub is_known_action : String → Bool
is_known_action action =
    action == "allow"
    || action == "deny"
    || action == "rewrite"
    || action == "passthrough"
    || action == "block"

-- BodyChanged; `none` is a nil body.
unfoldable pub body_changed : Str → Option Str → Bool
body_changed old_body none = false
body_changed old_body (some new_body) = not (old_body == new_body)

pub record HookFilter : Type 0 where
  pub host : List Str
  pub path : List (Option (Str → Bool))  -- `none` does not compile
  pub method : List Str
  pub content_type : List Str
  pub container : List Str
  pub tls : Option Bool
  pub llm : Option Bool

-- matchAnyGlob
glob_matches : Str → Str → Bool
unfolding has_prefix has_suffix
glob_matches value p =
    (has_prefix p (codes "*.") && has_suffix value (after_star p)) || Filepath.match p value
  where
    after_star : Str → Str
    after_star [] = []
    after_star (c ∷ s) = s

unfoldable pub match_any_glob : List Str → Str → Bool
unfolding glob_matches any
match_any_glob patterns value = any (glob_matches value) patterns

-- matchAnyExactCI
unfoldable pub match_any_exact_ci : List Str → Str → Bool
unfolding to_lower any
match_any_exact_ci patterns value = any (λ p. to_lower p == to_lower value) patterns

abbrev pub is_empty {ℓ} : {A : Type ℓ} → List A → Bool
is_empty [] = true
is_empty (x ∷ xs) = false

same_bool : Bool → Bool → Bool
same_bool true b = b
same_bool false b = not b

unfoldable pub wants : Option Bool → Bool → Bool
unfolding same_bool
wants none b = true
wants (some w) b = same_bool w b

abbrev before_parameters : Str → Option (Str × Str) → Str
before_parameters s none = s
before_parameters s (some (t, parameters)) = trim_space t

abbrev pub regex_matches : Str → Option (Str → Bool) → Bool
regex_matches path none = false
regex_matches path (some re) = re path

unfoldable pub media_type : Str → Str
unfolding cut_char trim_space
media_type s = before_parameters s (cut_char b';' s)

pub record Exchange : Type 0 where
  pub host : Str
  pub path : Str
  pub method : Str
  pub content_type : Str
  pub container : Str
  pub tls : Bool
  pub is_llm : Bool

-- MatchesFilter; no filter matches everything.
unfoldable pub matches_filter : Option HookFilter → Exchange → Bool
unfolding wants match_any_glob match_any_exact_ci media_type any
matches_filter none x = true
matches_filter (some f) x =
    if not (wants f.tls x.tls)
    then false
    else if not (wants f.llm x.is_llm)
    then false
    else if not (is_empty f.host) && not (match_any_glob f.host x.host)
    then false
    else if not (is_empty f.path) && not (any (regex_matches x.path) f.path)
    then false
    else if not (is_empty f.method) && not (match_any_exact_ci f.method x.method)
    then false
    else if not (is_empty f.content_type)
        && not (match_any_glob f.content_type (media_type x.content_type))
    then false
    else not (not (is_empty f.container) && not (match_any_glob f.container x.container))
