-- ===== src/Tests/Registry.antt =====
-- The theorems on tracked connections, endpoint patterns and redaction at concrete inputs.
use greyproxy.Go.Search.{cut}
use greyproxy.Prelude.{◌≡◌, ◌↔◌, refl, true, false, [], ◌∷◌, In, List, list_eqb}
use greyproxy.Go.Strings.{Str, has_prefix, codes, split}
use greyproxy.ConnTracker.{cancel_by_rule}
use greyproxy.ConnTracker.History.{
  registered, unregistered, after, open_under, cancel_by_rule-open_under,
}
use greyproxy.EndpointRegistry.{match_glob, extract_path}
use greyproxy.EndpointRegistry.Glob.{Matches, match_glob_iff}
use greyproxy.Redact.{redact, new_header_redactor, is_sensitive, redacted_value}
use greyproxy.Redact.Sensitive.{redact-defaults}

cancel_by_rule-open_under_example :
    (cancel_by_rule 7
      (after (unregistered 7 1 ∷ registered 8 ∷ registered 7 ∷ registered 7 ∷ []))).1
    ≡ open_under 7 (unregistered 7 1 ∷ registered 8 ∷ registered 7 ∷ registered 7 ∷ [])
cancel_by_rule-open_under_example =
    cancel_by_rule-open_under 7 (unregistered 7 1 ∷ registered 8 ∷ registered 7 ∷ registered 7 ∷ [])

match_glob_iff_example :
    (match_glob (codes "/v1/*/messages*") (codes "/v1/x/messages") ≡ true)
    ↔ Matches (split b'*' (codes "/v1/*/messages*")) (codes "/v1/x/messages")
match_glob_iff_example = match_glob_iff (codes "/v1/*/messages*") (codes "/v1/x/messages")

glob_run : match_glob (codes "/v1/*/messages*") (codes "/v1/x/messages") ≡ true
unfolding match_glob list_eqb
glob_run = refl

path_run : extract_path (codes "https://api.x.io:443/v1/chat?stream=1") ≡ codes "/v1/chat"
unfolding extract_path has_prefix
path_run = refl

abbrev token : Str × List Str
token = (codes "X-Token-Id", codes "abc" ∷ [])

redact-defaults_example :
    (In
        (codes "X-Token-Id", codes "abc" ∷ [])
        (redact (new_header_redactor (codes "x-mine" ∷ [])) (token ∷ []))
      → is_sensitive (new_header_redactor []) (codes "X-Token-Id") ≡ true
      → codes "abc" ∷ [] ≡ redacted_value ∷ [])
    × (In token (token ∷ [])
        → is_sensitive (new_header_redactor (codes "x-mine" ∷ [])) (codes "X-Token-Id") ≡ false
        → In
            (codes "X-Token-Id", codes "abc" ∷ [])
            (redact (new_header_redactor (codes "x-mine" ∷ [])) (token ∷ [])))
redact-defaults_example =
    redact-defaults (codes "x-mine" ∷ []) (token ∷ []) (codes "X-Token-Id") (codes "abc" ∷ [])

token_is_sensitive : is_sensitive (new_header_redactor []) (codes "X-Token-Id") ≡ true
unfolding is_sensitive new_header_redactor list_eqb cut
token_is_sensitive = refl
