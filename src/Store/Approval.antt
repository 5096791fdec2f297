-- ===== src/Store/Approval.antt =====
-- The decisions on a pending request (internal/greyproxy/crud.go: AllowPending, DenyPending).
pub mod Plain
pub mod Coverage
pub mod Subdomains
use greyproxy.Prelude.{
  ℕ, suc, String, Option, none, some, List, [], ◌∷◌, ◌++◌, ◌==◌, string_eq, list_eq, if◌then◌else◌,
  ℤ, pos, negsuc,
}
use greyproxy.Go.Strings.{Str, split}
use greyproxy.Go.Strconv.{itoa}
use greyproxy.Store.{Rule, PendingRequest, Db}
use greyproxy.Store.Rules.{
  Result, ok, err, Violation, RuleCreateInput, create_rule, find_existing_rule,
}
use greyproxy.Store.Pending.{get_pending, delete_pending_siblings, display_host}

-- `fmt.Sprintf("%d", port)`
unfoldable pub port_text : ℤ → Str
unfolding itoa
port_text (pos n) = itoa n
port_text (negsuc n) = b'-' ∷ itoa (suc n)

-- The last two labels of the host name, joined by a dot.
last_two : List Str → Option (Str × Str)
last_two [] = none
last_two (a ∷ []) = none
last_two (a ∷ b ∷ []) = some (a, b)
last_two (a ∷ b ∷ c ∷ r) = last_two (b ∷ c ∷ r)

-- extractBaseDomain
unfoldable pub extract_base_domain : Str → Str
unfolding last_two split
extract_base_domain host = elim (last_two (split b'.' host)) [
  | none ↦ host
  | some (a, b) ↦ a ++ b'.' ∷ b
]

pub record RulePatterns : Type 0 where
  pub container : Str
  pub destination : Str
  pub port : Str

-- buildPatterns
unfoldable pub build_patterns : PendingRequest → String → RulePatterns
unfolding display_host
build_patterns p scope =
    let host = display_host p in
    if scope == "any_port"
    then record { container = p.container_name; destination = host; port = b'*' ∷ [] }
    else if scope == "subdomain_wildcard"
    then record {
      container = p.container_name;
      destination = b'*' ∷ b'.' ∷ extract_base_domain host;
      port = b'*' ∷ [];
    }
    else if scope == "all_containers"
    then record { container = b'*' ∷ []; destination = host; port = port_text p.destination_port }
    else record {
      container = p.container_name;
      destination = host;
      port = port_text p.destination_port;
    }

-- parseDuration
unfoldable pub parse_duration : String → String × Option ℤ
parse_duration duration =
    if duration == "once"
    then ("temporary", some (pos 30))
    else if duration == "1h"
    then ("temporary", some (pos 3600))
    else if duration == "12h"
    then ("temporary", some (pos 43200))
    else if duration == "24h"
    then ("temporary", some (pos 86400))
    else if duration == "7d"
    then ("temporary", some (pos 604800))
    else if duration == "30d"
    then ("temporary", some (pos 2592000))
    else ("permanent", none)

pub data Outcome : Type 0 where
  not_found : Outcome
  failed : Violation → Outcome
  decided : Option Rule → Outcome

abbrev pub clear : PendingRequest → Db → Db
clear p db = (delete_pending_siblings p db).0

unfoldable pub on_created : PendingRequest → Db × Result (Option Rule) → Db × Outcome
unfolding delete_pending_siblings
on_created p (db, err e) = (db, failed e)
on_created p (db, ok r) = (clear p db, decided r)

unfoldable pub rule_input :
    String → PendingRequest → String → String → Option String → RuleCreateInput
unfolding build_patterns parse_duration
rule_input action p scope duration notes =
    let patterns = build_patterns p scope in
    let (rule_type, expires_in) = parse_duration duration in
    record {
      container_pattern = patterns.container;
      destination_pattern = patterns.destination;
      port_pattern = patterns.port;
      rule_type = rule_type;
      action = action;
      expires_in_seconds = expires_in;
      notes = notes;
      created_by = "";
    }

abbrev pub on_rule : ℕ → PendingRequest → RuleCreateInput → Db → Option Rule → Db × Outcome
on_rule now p input db (some r) = (clear p db, decided (some r))
on_rule now p input db none = on_created p (create_rule now input db)

-- What both decisions do with the pending request that they found.
unfoldable pub decide :
    String → ℕ → PendingRequest → String → String → Option String → Db → Db × Outcome
unfolding rule_input find_existing_rule on_created
decide action now p scope duration notes db =
    let input = rule_input action p scope duration notes in
    on_rule now p input db (
      find_existing_rule now input.container_pattern input.destination_pattern input.port_pattern
        action db)

abbrev pub on_request :
    String → ℕ → String → String → Option String → Db → Option PendingRequest → Db × Outcome
on_request action now scope duration notes db none = (db, not_found)
on_request action now scope duration notes db (some p) = decide action now p scope duration notes db

unfoldable pub resolve_pending :
    String → ℕ → ℕ → String → String → Option String → Db → Db × Outcome
unfolding decide get_pending
resolve_pending action now id scope duration notes db =
    on_request action now scope duration notes db (get_pending id db)

-- AllowPending
unfoldable pub allow_pending : ℕ → ℕ → String → String → Option String → Db → Db × Outcome
unfolding resolve_pending
allow_pending = resolve_pending "allow"

-- DenyPending
unfoldable pub deny_pending : ℕ → ℕ → String → String → Option String → Db → Db × Outcome
unfolding resolve_pending
deny_pending = resolve_pending "deny"
