-- ===== src/Store/Queries.antt =====
-- The listings of internal/greyproxy/crud.go and credential_crud.go: GetRules, QueryLogs, the filter of
-- GetPendingRequests, GetPendingCount, ListSessions and GetSessionRuleCount.
use greyproxy.Prelude.{
  ℕ, suc, String, Bool, true, ◌&&◌, ◌||◌, Option, none, some, List, [], ◌∷◌, ◌++◌, map, ltb, leb,
  ◌==◌, nat_eq, list_eq, string_eq, int_eq, if◌then◌else◌, ℤ, pos, negsuc, keep, first, any, length,
  take, drop,
}
use greyproxy.Go.Strings.{Str, codes}
use greyproxy.Go.Sort.{sort}
use greyproxy.Go.Strconv.{itoa}
use greyproxy.Store.{Rule, Session, PendingRequest, RequestLog, Db}
use greyproxy.Store.Rules.{is_live}
use greyproxy.Store.Sessions.{belongs, is_active}
use greyproxy.Store.Like.{contains_like, contains_like?}

-- A limit that is not positive is the default.
abbrev pub limit_or : ℕ → ℤ → ℕ
limit_or d (pos (suc n)) = suc n
limit_or d _ = d

abbrev page {ℓ} : {A : Type ℓ} → ℕ → ℕ → List A → List A
page limit offset xs = take limit (drop offset xs)

pub record RuleFilter : Type 0 where
  pub container : Str
  pub destination : Str
  pub action : String
  pub include_expired : Bool
  pub limit : ℤ
  pub offset : ℕ

unfoldable pub rule_wanted : ℕ → RuleFilter → Rule → Bool
unfolding contains_like is_live
rule_wanted now f r =
    (f.include_expired || is_live now r)
    && contains_like f.container r.container_pattern
    && contains_like f.destination r.destination_pattern
    && (f.action == "" || r.action == f.action)

-- `ORDER BY created_at DESC`
abbrev newer_rule : Rule → Rule → Bool
newer_rule q r = ltb r.created_at q.created_at

-- GetRules: a page of the rules that are wanted, and the number of all of them.
unfoldable pub get_rules : ℕ → RuleFilter → Db → List Rule × ℕ
unfolding rule_wanted keep sort
get_rules now f db =
    let found = keep (rule_wanted now f) db.rules in
    (page (limit_or 100 f.limit) f.offset (sort newer_rule found), length found)

pub record LogFilter : Type 0 where
  pub container : Str
  pub destination : Str
  pub result : String
  pub from_date : Option ℕ
  pub to_date : Option ℕ
  pub limit : ℤ
  pub offset : ℕ

abbrev pub not_before : Option ℕ → ℕ → Bool
not_before none t = true
not_before (some d) t = leb d t

abbrev pub not_after : Option ℕ → ℕ → Bool
not_after none t = true
not_after (some d) t = leb t d

unfoldable pub log_wanted : LogFilter → RequestLog → Bool
unfolding contains_like
log_wanted f l =
    contains_like f.container l.container_name
    && (contains_like f.destination l.destination_host
        || contains_like? f.destination l.resolved_hostname)
    && (f.result == "" || l.result == f.result)
    && not_before f.from_date l.timestamp
    && not_after f.to_date l.timestamp

abbrev newer_log : RequestLog → RequestLog → Bool
newer_log k l = ltb l.timestamp k.timestamp

summary : Rule → Str
summary r = r.container_pattern ++ (codes " → " ++ (r.destination_pattern ++ b':' ∷ r.port_pattern))

-- The rule of a log entry, if it is still there, and its summary.
unfoldable pub rule_summary : List Rule → Option ℕ → Option Str
unfolding first summary
rule_summary rules none = none
rule_summary rules (some id) = elim (first (λ (r : Rule). r.id == id) rules) [
  | none ↦ none
  | some r ↦ some (summary r)
]

-- QueryLogs: a page of the entries that are wanted, each with the summary of its rule, and the number
-- of all of them.
unfoldable pub query_logs : LogFilter → Db → List (RequestLog × Option Str) × ℕ
unfolding log_wanted rule_summary keep sort
query_logs f db =
    let found = keep (log_wanted f) db.logs in
    (
      map (λ (l : RequestLog). (l, rule_summary db.rules l.rule_id))
          (page (limit_or 50 f.limit) f.offset (sort newer_log found)),
      length found,
    )

-- The filter of GetPendingRequests.
unfoldable pub pending_wanted : Str → Str → PendingRequest → Bool
unfolding contains_like
pending_wanted container destination p =
    contains_like container p.container_name
    && (contains_like destination p.destination_host
        || contains_like? destination p.resolved_hostname)

abbrev host_or : Option Str → Str → Str
host_or none host = host
host_or (some name) host = name

abbrev port_digits : ℤ → Str
port_digits (pos n) = itoa n
port_digits (negsuc n) = b'-' ∷ itoa (suc n)

-- The text that GetPendingCount tells the rows apart by.
pending_key : PendingRequest → Str
unfolding itoa
pending_key p =
    host_or p.resolved_hostname p.destination_host
    ++ b':' ∷ (port_digits p.destination_port ++ b':' ∷ p.container_name)

distinct : List Str → List Str
unfolding any
distinct [] = []
distinct (s ∷ ss) = let rest = distinct ss in if any (λ t. t == s) rest then rest else s ∷ rest

-- GetPendingCount
unfoldable pub get_pending_count : Db → ℕ
unfolding pending_key distinct
get_pending_count db = length (distinct (map pending_key db.pending))

abbrev newer_session : Session → Session → Bool
newer_session s t = ltb t.created_at s.created_at

-- ListSessions
unfoldable pub list_sessions : ℕ → Db → List Session
unfolding keep sort
list_sessions now db = sort newer_session (keep (is_active now) db.sessions)

-- GetSessionRuleCount
unfoldable pub get_session_rule_count : String → Db → ℕ
unfolding keep
get_session_rule_count id db = length (keep (belongs id) db.rules)
