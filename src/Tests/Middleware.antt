-- ===== src/Tests/Middleware.antt =====
-- The theorems on middlewares at concrete inputs.
use greyproxy.Prelude.{◌≡◌, refl, true, false, none, some, [], ◌∷◌, All, list_eqb}
use greyproxy.Go.Strings.{codes}
use greyproxy.Middleware.{
  HookFilter, Exchange, Merged, matches_filter, merge_rewrite_headers, is_forbidden, values_of,
  canonical_header_key,
}
use greyproxy.Middleware.Rewrite.{merge_rewrite_headers-forbidden}

canonical_run : canonical_header_key (codes "set-COOKIE") ≡ codes "Set-Cookie"
unfolding canonical_header_key
canonical_run = refl

abbrev before : Merged
before = record { dst = (codes "Host", codes "a.io" ∷ []) ∷ []; applied = []; rejected = [] }

host_is_forbidden : is_forbidden (codes "Host") ≡ true
unfolding is_forbidden list_eqb
host_is_forbidden = refl

merge_rewrite_headers-forbidden_example :
    (values_of
        (codes "Host")
        (merge_rewrite_headers ((codes "host", codes "b.io" ∷ []) ∷ []) before).dst
      ≡ values_of (codes "Host") before.dst)
    × All
        (λ k. is_forbidden k ≡ false)
        (merge_rewrite_headers ((codes "host", codes "b.io" ∷ []) ∷ []) before).applied
merge_rewrite_headers-forbidden_example =
    merge_rewrite_headers-forbidden ((codes "host", codes "b.io" ∷ []) ∷ []) before (codes "Host")
      host_is_forbidden tt

abbrev filter : HookFilter
filter = record {
  host = codes "*.openai.com" ∷ [];
  path = [];
  method = codes "post" ∷ [];
  content_type = [];
  container = [];
  tls = some true;
  llm = none;
}

abbrev exchange : Exchange
exchange = record {
  host = codes "api.openai.com";
  path = codes "/v1";
  method = codes "POST";
  content_type = codes "application/json; charset=utf-8";
  container = codes "app-1";
  tls = true;
  is_llm = false;
}

filter_run : matches_filter (some filter) exchange ≡ true
unfolding matches_filter list_eqb
filter_run = refl
