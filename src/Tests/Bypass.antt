-- ===== src/Tests/Bypass.antt =====
-- The theorems on the gate, silent mode, the waiters, the bus and the cache at concrete inputs.
use greyproxy.Go.Filepath.{match}
use greyproxy.Patterns.{
  calculate_specificity, match_single_port, matches_port, matches_destination, matches_container,
  matches_rule,
}
use greyproxy.Prelude.{
  list_eqb, ◌≡◌, ◌↔◌, refl, false, some, none, [], ◌∷◌, ◌++◌, pos, arith, inl, inr, map,
  if◌then◌else◌, ◌==◌, list_eq, List,
}
use greyproxy.Go.Strings.{contains_any, trim_space, Str, codes, has_char}
use greyproxy.Events.{pending_allowed, pending_dismissed, publish_all, subscribe, new_event_bus}
use greyproxy.Events.Delivery.{filled, publish_all-filled}
use greyproxy.Waiters.{get, waiter_key}
use greyproxy.Waiters.Balance.{Tracking, arrive, start, next, waiting, get-waiting}
use greyproxy.AllowAll.{Runtime, enable, new_allow_all_manager}
use greyproxy.AllowAll.Timers as Timers
use greyproxy.DnsCache.{register_ips, resolve_ip}
use greyproxy.DnsCache.Lookup.{register_ips-resolve}
use greyproxy.Bypass.{
  Resolvers, Connection, State, Wake, event, contains, authenticate, resolve_identity,
  extract_client_ip, is_named, wait_for_approval,
}
use greyproxy.Bypass.Identity.{resolve_identity-authenticate}
use greyproxy.Bypass.Holding.{Approved, wait_for_approval_iff}
use greyproxy.Bypass.Decision.{Cause, contains-allowed_iff}
use greyproxy.Bypass.Records.{IsRecorded, contains-IsRecorded}
use greyproxy.Tests.Samples.{two_rules, one_request, allow_app}

abbrev no_names : Str → List Str
no_names s = []

abbrev resolvers : Resolvers
resolvers = record { docker = none; lookup_addr = no_names; lookup_host = no_names }

abbrev connection : Connection
connection = record {
  addr = codes "example.com:443";
  client_id = codes "10.0.0.2|app-1";
  source = some (codes "10.0.0.2:5000");
  service = codes "http-proxy";
  now = 100;
  elapsed = 3;
}

abbrev state : State
state = record {
  db = one_request;
  cache = record { entries = []; table = [] };
  counts = [];
  allow_all = none;
}

abbrev wakes : List Wake
wakes = event 101 one_request pending_allowed ∷ event 102 two_rules pending_allowed ∷ []

contains-allowed_iff_example :
    ((contains resolvers connection wakes state).blocked ≡ false)
    ↔ Cause resolvers connection wakes state
contains-allowed_iff_example = contains-allowed_iff resolvers connection wakes state

-- The first approval finds no rule, the second does.
held_and_released : (contains resolvers connection wakes state).blocked ≡ false
unfolding contains list_eqb matches_rule matches_container match matches_destination matches_port
    match_single_port trim_space calculate_specificity contains_any
held_and_released = refl

contains-IsRecorded_example : IsRecorded state (contains resolvers connection wakes state)
contains-IsRecorded_example = contains-IsRecorded resolvers connection wakes state

wait_for_approval_iff_example :
    (wait_for_approval (codes "app-1") (codes "example.com") (pos 443) [] wakes ≡ some allow_app)
    ↔ Approved (codes "app-1") (codes "example.com") (pos 443) [] wakes allow_app
wait_for_approval_iff_example =
    wait_for_approval_iff (codes "app-1") (codes "example.com") (pos 443) [] wakes allow_app

resolve_identity-authenticate_example :
    resolve_identity
      (authenticate (some (codes "10.0.0.2:5000")) (codes "app-1"))
      (codes "10.0.0.2")
    ≡ (if is_named (codes "app-1") then (codes "app-1", []) else (
      codes "unknown-"
          ++ (if codes "10.0.0.2" == []
              then extract_client_ip (some (codes "10.0.0.2:5000"))
              else codes "10.0.0.2"),
      [],
    ))
unfolding extract_client_ip has_char
resolve_identity-authenticate_example =
    resolve_identity-authenticate (some (codes "10.0.0.2:5000")) (codes "app-1") (codes "10.0.0.2")
      refl

publish_all-filled_example :
    (publish_all
      (pending_allowed ∷ pending_dismissed ∷ [])
      (subscribe 1 new_event_bus).0).subscribers
    ≡ map
        (filled (pending_allowed ∷ pending_dismissed ∷ []))
        (subscribe 1 new_event_bus).0.subscribers
publish_all-filled_example =
    publish_all-filled (pending_allowed ∷ pending_dismissed ∷ []) (subscribe 1 new_event_bus).0

abbrev nobody_waits : Tracking
nobody_waits = record { counts = []; waiters = [] }

abbrev one_waits : Tracking
one_waits = record {
  counts = (greyproxy.Waiters.add (codes "app-1") (codes "example.com") (pos 443) []).1;
  waiters = [] ++ (greyproxy.Waiters.add (codes "app-1") (codes "example.com") (pos 443) []).0 ∷ [];
}

get-waiting_example :
    get (codes "app-1") (codes "example.com") (pos 443) one_waits.counts
    ≡ waiting (waiter_key (codes "app-1") (codes "example.com") (pos 443)) one_waits.waiters
get-waiting_example =
    get-waiting one_waits (codes "app-1") (codes "example.com") (pos 443)
      (next start (arrive (codes "app-1") (codes "example.com") (pos 443) nobody_waits))

abbrev silent : Runtime
silent = (enable 100 60 "deny" new_allow_all_manager).0

silent_mode_ends_example : Timers.Ending silent 160
unfolding enable
silent_mode_ends_example =
    Timers.silent_mode_ends silent 160
      (Timers.next Timers.start (Timers.enabled 100 60 "deny" new_allow_all_manager)) refl refl

armed-IsOwn_example : Timers.IsOwn silent.manager 0 160
unfolding enable
armed-IsOwn_example =
    Timers.armed-IsOwn silent 0 160
      (Timers.prompt_next Timers.prompt_start
        (Timers.enabled_promptly 100 60 "deny" new_allow_all_manager))
      (inl refl)

register_ips-resolve_example :
    (resolve_ip no_names 90000 (codes "10.0.0.7") (
      register_ips 100
        (codes "example.com")
        (codes "10.0.0.8" ∷ codes "10.0.0.7" ∷ [])
        (record { entries = []; table = [] }))).1
    ≡ codes "example.com"
register_ips-resolve_example =
    register_ips-resolve no_names 100 90000 b'e' (codes "xample.com") (codes "10.0.0.7")
      (codes "10.0.0.8" ∷ codes "10.0.0.7" ∷ []) (record { entries = []; table = [] })
      (inr (inl refl)) (omega arith)
