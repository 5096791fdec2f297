-- ===== src/Store/Logs.antt =====
-- The request log (internal/greyproxy/crud.go, Logs): the entry of a decision, and the reason that
-- is added to it later.
use greyproxy.Prelude.{
  ℕ, suc, String, Bool, ◌&&◌, ◌||◌, Option, none, some, List, [], ◌∷◌, ◌++◌, map, ◌==◌, nat_eq,
  list_eq, string_eq, int_eq, if◌then◌else◌, ℤ, pos,
}
use greyproxy.Go.Strings.{Str}
use greyproxy.Store.{RequestLog, Db}
use greyproxy.Store.Rules.{Result, ok, err, check_failed}
use greyproxy.Store.Pending.{null_if_empty, resolved_is}

pub record LogCreateInput : Type 0 where
  pub container_name : Str
  pub container_id : Str
  pub destination_host : Str
  pub destination_port : ℤ
  pub resolved_hostname : Str
  pub method : String
  pub result : String
  pub rule_id : Option ℕ
  pub response_time_ms : Option ℕ
  pub mitm_skip_reason : String

abbrev null_if_blank : String → Option String
null_if_blank s = if s == "" then none else some s

-- A port that is not positive is NULL.
abbrev null_unless_positive : ℤ → Option ℤ
null_unless_positive (pos (suc n)) = some (pos (suc n))
null_unless_positive _ = none

unfoldable pub new_log : ℕ → ℕ → LogCreateInput → RequestLog
new_log id now input = record {
  id = id;
  timestamp = now;
  container_name = input.container_name;
  container_id = null_if_empty input.container_id;
  destination_host = input.destination_host;
  destination_port = null_unless_positive input.destination_port;
  resolved_hostname = null_if_empty input.resolved_hostname;
  method = null_if_blank input.method;
  result = input.result;
  rule_id = input.rule_id;
  response_time_ms = input.response_time_ms;
  mitm_skip_reason = null_if_blank input.mitm_skip_reason;
}

-- CreateLogEntry, with the CHECK constraint of the column `result`. The rule of `rule_id` exists.
unfoldable pub create_log_entry : ℕ → LogCreateInput → Db → Db × Result RequestLog
unfolding new_log
create_log_entry now input db =
    if input.result == "allowed" || input.result == "blocked"
    then (
      record db {
        logs = db.logs ++ new_log db.next_log now input ∷ [];
        next_log = suc db.next_log;
      },
      ok (new_log db.next_log now input),
    )
    else (db, err check_failed)

-- `COALESCE(destination_port, 0)`
abbrev port_or_zero : Option ℤ → ℤ
port_or_zero none = pos 0
port_or_zero (some n) = n

unfoldable pub log_matches : Str → Str → ℤ → RequestLog → Bool
log_matches container host port l =
    l.container_name == container
    && (l.destination_host == host || resolved_is host l.resolved_hostname)
    && port_or_zero l.destination_port == port

-- `ORDER BY id DESC LIMIT 1`: the last row that matches, as ids grow along the table.
unfoldable pub last_match : Option ℕ → Str → Str → ℤ → List RequestLog → Option ℕ
unfolding log_matches
last_match found container host port [] = found
last_match found container host port (l ∷ ls) =
    last_match (if log_matches container host port l then some l.id else found) container host port
      ls

abbrev set_reason : String → Option ℕ → RequestLog → RequestLog
set_reason reason none l = l
set_reason reason (some id) l =
    if l.id == id then record l { mitm_skip_reason = some reason } else l

-- UpdateLatestLogMitmSkipReason
unfoldable pub update_latest_log : Str → Str → ℤ → String → Db → Db
unfolding last_match
update_latest_log container host port reason db = if reason == "" then db else record db {
  logs = map (set_reason reason (last_match none container host port db.logs)) db.logs;
}
