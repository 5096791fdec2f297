-- ===== src/Bypass.antt =====
-- internal/greyproxy/plugins/bypass.go: whether a connection is let through (Contains), with the
-- identities of auther.go. The Docker lookup and the resolver of the operating system are
-- parameters. While a connection is held, time passes and others change the database: what reaches
-- the waiting loop is an explicit sequence of wakes, each with the database of its time. Silent mode
-- is read once.
pub mod Identity
pub mod Decision
pub mod Holding
pub mod Records
use greyproxy.Prelude.{
  ℕ, String, Bool, true, false, not, ◌&&◌, Option, none, some, List, [], ◌∷◌, ◌++◌, ◌==◌, list_eq,
  string_eq, if◌then◌else◌, ℤ, pos,
}
use greyproxy.Go.Strings.{Str, codes, cut_char}
use greyproxy.Go.Search.{contains as has_text}
use greyproxy.Go.Strconv.{atoi}
use greyproxy.Go.Net.{Ip, parse_ip}
use greyproxy.Go.HostPort.{split_host_port}
use greyproxy.Events.{Event, pending_created, pending_updated, pending_allowed, pending_dismissed}
use greyproxy.Waiters.{Counts, Waiter, add, done}
use greyproxy.AllowAll.{Runtime}
use greyproxy.DnsCache.{DnsCache, resolve_ip, register_hostname}
use greyproxy.Store.{Rule, PendingRequest, Db}
use greyproxy.Store.Logs.{LogCreateInput}
use greyproxy.Store.Matching.{find_matching_rule}
use greyproxy.Store.Pending.{create_or_update_pending}
use greyproxy.Store.Sessions.{is_container_allow_all}

abbrev pub two_parts : Str → Option (Str × Str) → Str × Str
two_parts client_id (some (ip, username)) = (ip, username)
two_parts client_id none = (client_id, [])

-- ParseClientID
unfoldable pub parse_client_id : Str → Str × Str
unfolding cut_char
parse_client_id client_id = two_parts client_id (cut_char b'|' client_id)

-- `net.SplitHostPort` of the source address; `none` stands for no address in the context.
unfoldable pub source_host : Option Str → Str
unfolding split_host_port
source_host none = []
source_host (some addr) = elim (split_host_port addr) [ some (host, port) ↦ host | none ↦ [] ]

-- extractClientIP
unfoldable pub extract_client_ip : Option Str → Str
unfolding split_host_port
extract_client_ip none = codes "unknown"
extract_client_ip (some addr) = elim (split_host_port addr) [
  | some (host, port) ↦ host
  | none ↦ addr
]

abbrev pub is_named : Str → Bool
is_named user = not (user == []) && not (user == codes "proxy")

-- Authenticate: the composite id of the client.
unfoldable pub authenticate : Option Str → Str → Str
unfolding extract_client_ip
authenticate source user =
    if is_named user then extract_client_ip source ++ b'|' ∷ user else extract_client_ip source

-- ResolveIdentity
unfoldable pub resolve_identity : Str → Str → Str × Str
unfolding parse_client_id
resolve_identity client_id src_ip =
    let (client_ip, username) = parse_client_id client_id in
    if is_named username
    then (username, [])
    else (codes "unknown-" ++ (if src_ip == [] then client_ip else src_ip), [])

-- methodFromService
unfoldable pub method_from_service : Str → String
unfolding has_text
method_from_service service =
    if has_text service (codes "http")
    then "HTTP"
    else if has_text service (codes "socks")
    then "SOCKS5"
    else "unknown"

-- What the gate is connected to.
pub record Resolvers : Type 0 where
  pub docker : Option (Str → Str × Str)
  pub lookup_addr : Str → List Str
  pub lookup_host : Str → List Str

pub record Connection : Type 0 where
  pub addr : Str
  pub client_id : Str
  pub source : Option Str
  pub service : Str
  pub now : ℕ
  pub elapsed : ℕ

pub record State : Type 0 where
  pub db : Db
  pub cache : DnsCache
  pub counts : Counts
  pub allow_all : Option Runtime

-- The decision: whether to block, the rule whose deletion cancels the connection, the entry for the
-- log, the events, and the state that the call leaves (the pending request is written before the
-- connection waits).
pub record Answer : Type 0 where
  pub blocked : Bool
  pub tracked : Option ℕ
  pub log : LogCreateInput
  pub published : List Event
  pub state : State

-- The Docker lookup, and the identity of the client where it finds nothing.
abbrev docker_identity : Option (Str → Str × Str) → Str → Str × Str
docker_identity none src_ip = ([], [])
docker_identity (some lookup) src_ip = if src_ip == [] then ([], []) else lookup src_ip

abbrev or_identity : Str → Str → Str × Str → Str × Str
or_identity client_id src_ip ([], id) = resolve_identity client_id src_ip
or_identity client_id src_ip (c ∷ name, id) = (c ∷ name, id)

unfoldable pub identify : Resolvers → Connection → Str × Str
unfolding source_host resolve_identity
identify r c =
    or_identity c.client_id (source_host c.source) (docker_identity r.docker (source_host c.source))

-- resolveHostname
unfoldable pub resolve_hostname : Resolvers → ℕ → Str → DnsCache → DnsCache × Str
unfolding parse_ip resolve_ip register_hostname
resolve_hostname r now host cache = elim (parse_ip host) [
  | none ↦ (register_hostname r.lookup_host now host cache, [])
  | some ip ↦ resolve_ip r.lookup_addr now host cache
]

-- The host and the port of the address; an address that does not split is a host with port 0.
unfoldable pub host_and_port : Str → Str × ℤ
unfolding split_host_port atoi
host_and_port addr = elim (split_host_port addr) [
  | none ↦ (addr, pos 0)
  | some (host, port) ↦ (host, (atoi port).0)
]

-- In silent mode an empty host is replaced too.
unfoldable pub silent_host_and_port : Str → Str × ℤ
unfolding host_and_port
silent_host_and_port addr =
    let (host, port) = host_and_port addr in if host == [] then (addr, pos 0) else (host, port)

unfoldable pub log_input :
    Connection → Str × Str → Str × ℤ → Str → String → Option ℕ → LogCreateInput
unfolding method_from_service
log_input c (container, container_id) (host, port) resolved result rule_id = record {
  container_name = container;
  container_id = container_id;
  destination_host = host;
  destination_port = port;
  resolved_hostname = resolved;
  method = method_from_service c.service;
  result = result;
  rule_id = rule_id;
  response_time_ms = some c.elapsed;
  mitm_skip_reason = "";
}

-- What arrives at a connection that is held: the end of its context or of the grace period, or an
-- event, with the time and the database at its arrival.
pub data Wake : Type 0 where
  stopped : Wake
  event : ℕ → Db → Event → Wake

-- The branches of the loop, with the rule that the search finds and what the rest of the wakes give.
abbrev pub on_event : Event → Option Rule → Option Rule → Option Rule
on_event pending_allowed none rest = rest
on_event pending_allowed (some r) rest = if r.action == "allow" then some r else rest
on_event pending_dismissed none rest = none
on_event pending_dismissed (some r) rest = if r.action == "deny" then none else rest
on_event _ found rest = rest

-- waitForApproval
unfoldable pub wait_for_approval : Str → Str → ℤ → Str → List Wake → Option Rule
unfolding find_matching_rule
wait_for_approval container host port resolved [] = none
wait_for_approval container host port resolved (stopped ∷ wakes) = none
wait_for_approval container host port resolved (event now db e ∷ wakes) =
    on_event e (find_matching_rule now container host port resolved db)
      (wait_for_approval container host port resolved wakes)

-- createPending: the database and the event.
abbrev pub pending_event : Option PendingRequest → Bool → List Event
pending_event none new = []
pending_event (some p) true = pending_created p ∷ []
pending_event (some p) false = pending_updated p ∷ []

abbrev pub result_of : Bool → String
result_of true = "blocked"
result_of false = "allowed"

-- The answer for a connection that was held: what is written and published on the way is the same.
unfoldable pub held_answer :
    Connection → Str × Str → Str × ℤ → Str → State → Bool → Option ℕ → Answer
unfolding create_or_update_pending add done log_input
held_answer c who dest resolved s blocked rule =
    let (db, pending, new) =
      create_or_update_pending c.now who.0 who.1 dest.0 dest.1 resolved s.db in
    let (w, counts, arrival) = add who.0 dest.0 dest.1 s.counts in
    let (w', counts', departure) = done w counts in
    record {
      blocked = blocked;
      tracked = rule;
      log = log_input c who dest resolved (result_of blocked) rule;
      published = pending_event pending new ++ (arrival ++ departure);
      state = record s { db = db; counts = counts' };
    }

abbrev pub on_approval : (Bool → Option ℕ → Answer) → Option Rule → Answer
on_approval answer none = answer true none
on_approval answer (some r) = answer false (some r.id)

-- The connection is held, and let through if a rule is approved.
unfoldable pub hold : Connection → Str × Str → Str × ℤ → Str → List Wake → State → Answer
unfolding held_answer wait_for_approval
hold c who dest resolved wakes s =
    on_approval (held_answer c who dest resolved s)
      (wait_for_approval who.0 dest.0 dest.1 resolved wakes)

-- The answer that leaves the state alone and publishes nothing.
abbrev pub at_once :
    Connection → Str × Str → Str × ℤ → Str → State → Bool → Option ℕ → Option ℕ → Answer
at_once c who dest resolved s blocked tracked rule_id = record {
  blocked = blocked;
  tracked = tracked;
  log = log_input c who dest resolved (result_of blocked) rule_id;
  published = [];
  state = s;
}

abbrev pub on_found :
    Connection → Str × Str → Str × ℤ → Str → List Wake → State → Option Rule → Answer
on_found c who dest resolved wakes s (some r) =
    if r.action == "allow"
    then at_once c who dest resolved s false (some r.id) (some r.id)
    else at_once c who dest resolved s true none (some r.id)
on_found c who dest resolved wakes s none = hold c who dest resolved wakes s

-- Contains behind silent mode.
unfoldable pub evaluate : Resolvers → Connection → List Wake → State → Answer
unfolding identify resolve_hostname host_and_port is_container_allow_all find_matching_rule hold
    log_input
evaluate r c wakes s =
    let who = identify r c in
    let dest = host_and_port c.addr in
    let (cache, resolved) = resolve_hostname r c.now dest.0 s.cache in
    let s' = record s { cache = cache } in
    if not (who.0 == []) && is_container_allow_all c.now who.0 s.db
    then at_once c who dest resolved s' false none none
    else on_found c who dest resolved wakes s'
        (find_matching_rule c.now who.0 dest.0 dest.1 resolved s.db)

-- Contains in silent mode.
unfoldable pub silently : Resolvers → Connection → String → State → Answer
unfolding identify resolve_hostname silent_host_and_port log_input
silently r c mode s =
    let who = identify r c in
    let dest = silent_host_and_port c.addr in
    let (cache, resolved) = resolve_hostname r c.now dest.0 s.cache in
    at_once c who dest resolved (record s { cache = cache }) (mode == "deny") none none

abbrev pub silent_mode : Option Runtime → Option String
silent_mode none = none
silent_mode (some m) = if m.manager.active then some m.manager.mode else none

abbrev pub on_mode : Resolvers → Connection → List Wake → State → Option String → Answer
on_mode r c wakes s (some mode) = silently r c mode s
on_mode r c wakes s none = evaluate r c wakes s

-- Contains
unfoldable pub contains : Resolvers → Connection → List Wake → State → Answer
unfolding silently evaluate
contains r c wakes s = on_mode r c wakes s (silent_mode s.allow_all)
