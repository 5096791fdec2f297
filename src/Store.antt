-- ===== src/Store.antt =====
-- The tables of the database (internal/greyproxy/migrations.go, models.go): rules, sessions, pending
-- requests and request logs. A table is the list of its rows in the order of their row ids. Times
-- are seconds; `now` is the value of `datetime('now')` during a call. A statement fails only by a
-- constraint of its table.
pub mod Rules
pub mod Matching
pub mod Pending
pub mod Approval
pub mod Logs
pub mod Sessions
pub mod Ingest
pub mod Like
pub mod Queries
use greyproxy.Prelude.{ℕ, String, Bool, Option, none, some, List, [], ℤ, length}
use greyproxy.Go.Strings.{Str}

pub record Rule : Type 0 where
  pub id : ℕ
  pub container_pattern : Str
  pub destination_pattern : Str
  pub port_pattern : Str
  pub rule_type : String
  pub action : String
  pub created_at : ℕ
  pub expires_at : Option ℕ
  pub last_used_at : Option ℕ
  pub created_by : String
  pub notes : Option String
  pub session_id : Option String

-- Of a session, what the rule engine reads. The encrypted mappings and the labels are opaque.
pub record Session : Type 0 where
  pub session_id : String
  pub container_name : Str
  pub mappings_enc : String
  pub labels_json : String
  pub metadata_json : String
  pub ttl_seconds : ℕ
  pub created_at : ℕ
  pub expires_at : ℕ
  pub last_heartbeat : ℕ
  pub substitution_count : ℕ
  pub allow_all : Bool

pub record PendingRequest : Type 0 where
  pub id : ℕ
  pub container_name : Str
  pub container_id : Str
  pub destination_host : Str
  pub destination_port : ℤ
  pub resolved_hostname : Option Str
  pub first_seen : ℕ
  pub last_seen : ℕ
  pub attempt_count : ℕ

pub record RequestLog : Type 0 where
  pub id : ℕ
  pub timestamp : ℕ
  pub container_name : Str
  pub container_id : Option Str
  pub destination_host : Str
  pub destination_port : Option ℤ
  pub resolved_hostname : Option Str
  pub method : Option String
  pub result : String
  pub rule_id : Option ℕ
  pub response_time_ms : Option ℕ
  pub mitm_skip_reason : Option String

-- `AUTOINCREMENT` hands out each row id once: the next one is kept with the table.
pub record Db : Type 0 where
  pub rules : List Rule
  pub next_rule : ℕ
  pub sessions : List Session
  pub pending : List PendingRequest
  pub next_pending : ℕ
  pub logs : List RequestLog
  pub next_log : ℕ

abbrev pub empty : Db
empty = record {
  rules = [];
  next_rule = 1;
  sessions = [];
  pending = [];
  next_pending = 1;
  logs = [];
  next_log = 1;
}
