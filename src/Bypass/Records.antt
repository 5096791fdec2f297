-- ===== src/Bypass/Records.antt =====
-- What Contains writes about its decision, and what it leaves alone.
use greyproxy.Prelude.{
  ℕ, ◌+◌, String, ◌≡◌, refl, ap, ◌∙◌, Bool, true, false, Option, none, some, List, ◌==◌, list_eq,
  string_eq, if◌then◌else◌, ℤ, arith,
}
use greyproxy.Go.Strings.{Str}
use greyproxy.Waiters.{Counts, add, done, count_of, set_count, waiter_key}
use greyproxy.Waiters.Balance.{count-decrement, count-increment}
use greyproxy.Store.{Rule, Db, PendingRequest}
use greyproxy.Store.Pending.{
  create_or_update_pending, on_existing, on_sibling, find_pending_by_destination, find_sibling,
  update_pending, insert_pending,
}
use greyproxy.Bypass.{
  Resolvers, Connection, State, Answer, Wake, contains, evaluate, silently, silent_mode, on_mode,
  hold, held_answer, on_approval, on_found, at_once, log_input, result_of, identify, host_and_port,
  silent_host_and_port, resolve_hostname,
}
use greyproxy.Bypass.Decision.{session_allows, found}

-- The log entry says what was decided, and a connection that a rule can cancel was let through by
-- that rule, which the entry names.
pub record IsRecorded (s : State) (a : Answer) : Type 0 where
  pub result : a.log.result ≡ result_of a.blocked
  pub cancellable : (id : ℕ) → a.tracked ≡ some id → (a.blocked ≡ false) × (a.log.rule_id ≡ some id)
  pub rules_kept : a.state.db.rules ≡ s.db.rules
  pub waiters_kept : (key : Str) → count_of key a.state.counts ≡ count_of key s.counts

add-done-count :
    (container host : Str) (port : ℤ) (counts : Counts) (key : Str)
    → count_of key (done (add container host port counts).0 (add container host port counts).1).1
      ≡ count_of key counts
unfolding add done
add-done-count container host port counts key =
    let k = waiter_key container host port in
    ground (
      arith,
      count-decrement k key (set_count k (count_of k counts + 1) counts),
      count-increment k key counts,
    )

create_pending-rules :
    (now : ℕ) (container container_id host : Str) (port : ℤ) (resolved : Str) (db : Db)
    → (create_or_update_pending now container container_id host port resolved db).0.rules ≡ db.rules
unfolding create_or_update_pending update_pending insert_pending
create_pending-rules now container container_id host port resolved db =
    existing_rules (find_pending_by_destination container host port db)
  where
    sibling :
        (o : Option PendingRequest)
        → (on_sibling now container container_id host port resolved db o).0.rules ≡ db.rules
    sibling none = refl
    sibling (some p) = refl

    existing_rules :
        (o : Option PendingRequest)
        → (on_existing now container container_id host port resolved db o).0.rules ≡ db.rules
    existing_rules none = sibling (find_sibling container resolved port db)
    existing_rules (some p) = refl

at_once-IsRecorded :
    (c : Connection) (w : Str × Str) (d : Str × ℤ) (resolved : Str) (s t : State) (blocked : Bool)
    (rule_id : Option ℕ)
    → t.db ≡ s.db
    → t.counts ≡ s.counts
    → IsRecorded s (at_once c w d resolved t blocked none rule_id)
unfolding log_input
at_once-IsRecorded c w d resolved s t blocked rule_id e f = record {
  result = refl;
  cancellable = λ id h. cc;
  rules_kept = ap (λ (db : Db). db.rules) e;
  waiters_kept = λ key. ap (count_of key) f;
}

held-IsRecorded :
    (c : Connection) (w : Str × Str) (d : Str × ℤ) (resolved : Str) (s t : State) (o : Option Rule)
    → t.db ≡ s.db
    → t.counts ≡ s.counts
    → IsRecorded s (on_approval (held_answer c w d resolved t) o)
unfolding held_answer log_input
held-IsRecorded c w d resolved s t none e f = record {
  result = refl;
  cancellable = λ id h. cc;
  rules_kept =
      create_pending-rules c.now w.0 w.1 d.0 d.1 resolved t.db ∙ ap (λ (db : Db). db.rules) e;
  waiters_kept = λ key. add-done-count w.0 d.0 d.1 t.counts key ∙ ap (count_of key) f;
}
held-IsRecorded c w d resolved s t (some r) e f = record {
  result = refl;
  cancellable = λ id h. (refl, h);
  rules_kept =
      create_pending-rules c.now w.0 w.1 d.0 d.1 resolved t.db ∙ ap (λ (db : Db). db.rules) e;
  waiters_kept = λ key. add-done-count w.0 d.0 d.1 t.counts key ∙ ap (count_of key) f;
}

if-IsRecorded :
    {s : State} (b : Bool) (x y : Answer)
    → IsRecorded s x
    → IsRecorded s y
    → IsRecorded s (if b then x else y)
if-IsRecorded true x y p q = p
if-IsRecorded false x y p q = q

found-IsRecorded :
    (c : Connection) (w : Str × Str) (d : Str × ℤ) (resolved : Str) (wakes : List Wake)
    (s t : State) (o : Option Rule)
    → t.db ≡ s.db
    → t.counts ≡ s.counts
    → IsRecorded s (on_found c w d resolved wakes t o)
unfolding hold log_input
found-IsRecorded c w d resolved wakes s t none e f = held-IsRecorded c w d resolved s t _ e f
found-IsRecorded c w d resolved wakes s t (some r) e f =
    if-IsRecorded (r.action == "allow") _ _
      (record {
        result = refl;
        cancellable = λ id h. (refl, h);
        rules_kept = ap (λ (db : Db). db.rules) e;
        waiters_kept = λ key. ap (count_of key) f;
      })
      (at_once-IsRecorded c w d resolved s t true (some r.id) e f)

silently-IsRecorded :
    (r : Resolvers) (c : Connection) (mode : String) (s : State)
    → IsRecorded s (silently r c mode s)
unfolding silently
silently-IsRecorded r c mode s =
    at_once-IsRecorded c (identify r c) (silent_host_and_port c.addr)
      (resolve_hostname r c.now (silent_host_and_port c.addr).0 s.cache).1 s
      (record s { cache = (resolve_hostname r c.now (silent_host_and_port c.addr).0 s.cache).0 })
      (mode == "deny") none refl refl

evaluate-IsRecorded :
    (r : Resolvers) (c : Connection) (wakes : List Wake) (s : State)
    → IsRecorded s (evaluate r c wakes s)
unfolding evaluate
evaluate-IsRecorded r c wakes s =
    let w = identify r c in
    let d = host_and_port c.addr in
    let looked = resolve_hostname r c.now d.0 s.cache in
    let t : State = record s { cache = looked.0 } in
    if-IsRecorded (session_allows r c s) _ _
      (at_once-IsRecorded c w d looked.1 s t false none refl refl)
      (found-IsRecorded c w d looked.1 wakes s t (found r c s) refl refl)

pub contains-IsRecorded :
    (r : Resolvers) (c : Connection) (wakes : List Wake) (s : State)
    → IsRecorded s (contains r c wakes s)
unfolding contains
contains-IsRecorded r c wakes s = mode (silent_mode s.allow_all)
  where
    mode : (m : Option String) → IsRecorded s (on_mode r c wakes s m)
    mode (some m) = silently-IsRecorded r c m s
    mode none = evaluate-IsRecorded r c wakes s
