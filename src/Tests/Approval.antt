-- ===== src/Tests/Approval.antt =====
-- The theorems on decisions at concrete inputs.
use greyproxy.Prelude.{
  String, list_eqb, ◌≡◌, ◌≢◌, ◌↔◌, ◌<◌, refl, true, arith, length, none, some, any,
}
use greyproxy.Go.Strings.{has_char, has_prefix, split}
use greyproxy.Patterns.{matches_destination}
use greyproxy.Store.Rules.Table.{IsTable}
use greyproxy.Store.Pending.{get_pending, display_host}
use greyproxy.Store.Approval.{build_patterns, allow_pending, deny_pending}
use greyproxy.Store.Approval.Plain.{IsPlain}
use greyproxy.Store.Approval.Coverage.{IsDecided, Decides, resolve_pending-IsDecided}
use greyproxy.Store.Approval.Subdomains.{subdomain_scope_iff}
use greyproxy.Tests.Samples.{request, one_request}

request-IsPlain : IsPlain request
unfolding any has_char has_prefix display_host list_eqb
request-IsPlain = record {
  container = refl;
  no_slash = refl;
  no_star = refl;
  number = 443;
  port_is = refl;
  in_range = omega arith;
}

one_request-rules : IsTable one_request
one_request-rules = record { rows = tt; apart = tt }

exact_scope : ◌≢◌ {A = String} "exact" "subdomain_wildcard"
exact_scope e = cc

get_one : get_pending 1 one_request ≡ some request
unfolding get_pending
get_one = refl

resolve_pending-IsDecided_example :
    Decides
      (IsDecided "allow" 20 request one_request)
      (allow_pending 20 1 "exact" "1h" none one_request)
    × Decides
        (IsDecided "deny" 20 request one_request)
        (deny_pending 20 1 "exact" "1h" none one_request)
resolve_pending-IsDecided_example =
    resolve_pending-IsDecided 20 1 "exact" "1h" none request one_request one_request-rules get_one
      request-IsPlain exact_scope

subdomain_scope_iff_example :
    (matches_destination
        (display_host request)
        (build_patterns request "subdomain_wildcard").destination
      ≡ true)
    ↔ (2 < length (split b'.' (display_host request)))
unfolding display_host has_char list_eqb
subdomain_scope_iff_example = subdomain_scope_iff request refl
