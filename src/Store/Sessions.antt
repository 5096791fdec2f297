-- ===== src/Store/Sessions.antt =====
-- Sessions and their network rules (internal/greyproxy/credential_crud.go). The encryption and the
-- encoding of the mappings, labels and metadata are done by the caller: they reach the table as text.
pub mod Lifetime
pub mod Creation
use Prim.Native.String.{◌++◌ as append}
use greyproxy.Prelude.{
  ℕ, zero, suc, ◌+◌, String, Bool, true, false, not, ◌&&◌, Option, none, some, List, [], ◌∷◌, ◌++◌,
  map, ltb, leb, ◌==◌, nat_eq, list_eq, string_eq, if◌then◌else◌, ℤ, pos, negsuc, keep, first, any,
}
use greyproxy.Go.Strings.{Str}
use greyproxy.Store.{Rule, Session, Db}
use greyproxy.Store.Rules.{same_key, or_any_port, or_default}

pub record SessionNetworkRule : Type 0 where
  pub destination_pattern : Str
  pub port_pattern : Str
  pub action : String
  pub notes : String

pub record SessionCreateInput : Type 0 where
  pub session_id : String
  pub container_name : Str
  pub mappings_enc : String
  pub labels_json : String
  pub metadata_json : String
  pub ttl_seconds : ℤ
  pub network_rules : List SessionNetworkRule
  pub allow_all : Bool

-- A lifetime that is not positive is 900 seconds.
abbrev pub lifetime : ℤ → ℕ
lifetime (pos (suc n)) = suc n
lifetime _ = 900

abbrev pub is_session : String → Session → Bool
is_session id s = s.session_id == id

-- The rule belongs to the session.
abbrev pub belongs : String → Rule → Bool
belongs id r = elim r.session_id [ none ↦ false | some s ↦ s == id ]

new_session : ℕ → SessionCreateInput → Session
new_session now input = record {
  session_id = input.session_id;
  container_name = input.container_name;
  mappings_enc = input.mappings_enc;
  labels_json = input.labels_json;
  metadata_json = input.metadata_json;
  ttl_seconds = lifetime input.ttl_seconds;
  created_at = now;
  expires_at = now + lifetime input.ttl_seconds;
  last_heartbeat = now;
  substitution_count = 0;
  allow_all = input.allow_all;
}

-- `ON CONFLICT(session_id) DO UPDATE`: the creation time and the count stay.
overwrite : ℕ → SessionCreateInput → Session → Session
unfolding new_session
overwrite now input s = record (new_session now input) {
  created_at = s.created_at;
  substitution_count = s.substitution_count;
}

unfoldable pub upsert_session : ℕ → SessionCreateInput → List Session → List Session
unfolding new_session overwrite any
upsert_session now input sessions =
    if any (is_session input.session_id) sessions
    then map (λ s. if is_session input.session_id s then overwrite now input s else s) sessions
    else sessions ++ new_session now input ∷ []

unfoldable pub delete_session_rules : String → Db → Db
unfolding keep
delete_session_rules id db = record db { rules = keep (λ r. not (belongs id r)) db.rules }

unfoldable pub session_rule : ℕ → SessionCreateInput → ℕ → SessionNetworkRule → Rule
session_rule now input id nr = record {
  id = id;
  container_pattern = input.container_name;
  destination_pattern = nr.destination_pattern;
  port_pattern = or_any_port nr.port_pattern;
  rule_type = "temporary";
  action = or_default "allow" nr.action;
  created_at = now;
  expires_at = some (now + lifetime input.ttl_seconds);
  last_used_at = none;
  created_by = append "session:" input.session_id;
  notes = some nr.notes;
  session_id = some input.session_id;
}

is_action : String → Bool
is_action a = if a == "allow" then true else a == "deny"

-- `INSERT OR IGNORE`: a row that breaks a constraint is left out.
unfoldable pub insert_or_ignore : Rule → Db → Db
unfolding is_action same_key any
insert_or_ignore r db =
    if is_action r.action
      && not (
          any (same_key r.container_pattern r.destination_pattern r.port_pattern r.action) db.rules)
    then record db { rules = db.rules ++ r ∷ []; next_rule = suc db.next_rule }
    else db

unfoldable pub insert_session_rules : ℕ → SessionCreateInput → List SessionNetworkRule → Db → Db
unfolding insert_or_ignore session_rule
insert_session_rules now input [] db = db
insert_session_rules now input (nr ∷ nrs) db =
    insert_session_rules now input nrs
      (insert_or_ignore (session_rule now input db.next_rule nr) db)

-- getSessionLocked
unfoldable pub get_session : String → Db → Option Session
unfolding first
get_session id db = first (is_session id) db.sessions

-- CreateOrUpdateSession
unfoldable pub create_or_update_session : ℕ → SessionCreateInput → Db → Db × Option Session
unfolding upsert_session delete_session_rules insert_session_rules get_session
create_or_update_session now input db =
    let upserted = record db { sessions = upsert_session now input db.sessions } in
    let cleared = delete_session_rules input.session_id upserted in
    let db' = insert_session_rules now input input.network_rules cleared in
    (db', get_session input.session_id db')

abbrev pub is_active : ℕ → Session → Bool
is_active now s = ltb now s.expires_at

unfoldable pub beat : ℕ → Session → Session
beat now s = record s { expires_at = now + s.ttl_seconds; last_heartbeat = now }

-- The rules of a session expire with it.
abbrev expire_with : String → Option Session → Rule → Rule
expire_with id none r = if belongs id r then record r { expires_at = none } else r
expire_with id (some s) r = if belongs id r then record r { expires_at = some s.expires_at } else r

unfoldable pub extend_rules : String → Db → Db
unfolding get_session
extend_rules id db = record db { rules = map (expire_with id (get_session id db)) db.rules }

-- HeartbeatSession
unfoldable pub heartbeat_session : ℕ → String → Db → Db × Option Session
unfolding beat any extend_rules get_session
heartbeat_session now id db =
    if any (λ s. is_session id s && is_active now s) db.sessions
    then (let beaten = record db {
      sessions =
          map (λ s. if is_session id s && is_active now s then beat now s else s) db.sessions;
    } in
        let db' = extend_rules id beaten in (db', get_session id db'))
    else (db, none)

-- DeleteSession, with whether a row was removed.
unfoldable pub delete_session : String → Db → Db × Bool
unfolding delete_session_rules keep any
delete_session id db = (
  record (delete_session_rules id db) { sessions = keep (λ s. not (is_session id s)) db.sessions },
  any (is_session id) db.sessions,
)

delete_rules_of : List String → Db → Db
unfolding delete_session_rules
delete_rules_of [] db = db
delete_rules_of (id ∷ ids) db = delete_rules_of ids (delete_session_rules id db)

-- DeleteExpiredSessions, with the ids of the sessions that it removed.
unfoldable pub delete_expired_sessions : ℕ → Db → Db × List String
unfolding delete_rules_of keep
delete_expired_sessions now db =
    let ids = map (λ (s : Session). s.session_id) (keep (λ s. not (is_active now s)) db.sessions) in
    (record (delete_rules_of ids db) { sessions = keep (is_active now) db.sessions }, ids)

-- IsContainerAllowAll
unfoldable pub is_container_allow_all : ℕ → Str → Db → Bool
unfolding any
is_container_allow_all now container db =
    any (λ s. s.container_name == container && s.allow_all && is_active now s) db.sessions
