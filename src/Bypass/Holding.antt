-- ===== src/Bypass/Holding.antt =====
-- What makes the waiting loop let a connection through.
use greyproxy.Prelude.{
  ℕ, String, ◌≡◌, ◌↔◌, refl, sym, subst, ap, ◌∙◌, false, Option, none, some, List, [], ◌∷◌, ◌==◌,
  string_eq, ℤ, Bool-cases, inl, inr,
}
use text.Mathlib.TextEquality.{eq_iff}
use greyproxy.Go.Strings.{Str}
use greyproxy.Events.{
  Event, pending_created, pending_updated, pending_allowed, pending_dismissed, waiters_changed,
  allow_all_changed, other,
}
use greyproxy.Store.{Rule, Db}
use greyproxy.Store.Matching.{find_matching_rule}
use greyproxy.Bypass.{Wake, stopped, event, on_event, wait_for_approval}

-- With the rule that the search finds at its arrival, an event lets the connection wait on.
pub data WaitsOn : Event → Option Rule → Type 0 where
  no_rule_yet : WaitsOn pending_allowed none
  not_allowed : {r : Rule} → (r.action == "allow") ≡ false → WaitsOn pending_allowed (some r)
  not_denied : {r : Rule} → (r.action == "deny") ≡ false → WaitsOn pending_dismissed (some r)
  created : {p : _} {o : Option Rule} → WaitsOn (pending_created p) o
  updated : {p : _} {o : Option Rule} → WaitsOn (pending_updated p) o
  waiters : {d : _} {o : Option Rule} → WaitsOn (waiters_changed d) o
  silent : {d : _} {o : Option Rule} → WaitsOn (allow_all_changed d) o
  unrelated : {d : String} {o : Option Rule} → WaitsOn (other d) o

module _ (container host : Str) (port : ℤ) (resolved : Str) where
  -- The wakes begin with events that let the connection wait on, and then an approval comes while the
  -- search finds the rule, which allows.
  pub data Approved : List Wake → Rule → Type 0 where
    now_approved :
        {now : ℕ} {db : Db} {wakes : List Wake} {r : Rule}
        → find_matching_rule now container host port resolved db ≡ some r
        → r.action ≡ "allow"
        → Approved (event now db pending_allowed ∷ wakes) r
    later :
        {now : ℕ} {db : Db} {e : Event} {wakes : List Wake} {r : Rule}
        → WaitsOn e (find_matching_rule now container host port resolved db)
        → Approved wakes r
        → Approved (event now db e ∷ wakes) r

  event-Approved :
      (now : ℕ) (db : Db) (wakes : List Wake) (r : Rule) (rest : Option Rule) (e : Event)
      (o : Option Rule)
      → find_matching_rule now container host port resolved db ≡ o
      → on_event e o rest ≡ some r
      → (rest ≡ some r → Approved wakes r)
      → Approved (event now db e ∷ wakes) r
  event-Approved now db wakes r rest pending_allowed none f k h =
      later (subst (WaitsOn pending_allowed) (sym f) no_rule_yet) (h k)
  event-Approved now db wakes r rest pending_allowed (some q) f k h =
      elim (Bool-cases (q.action == "allow")) [
        | inl b ↦
            let e : q ≡ r = cc (rw b at k) in
            now_approved (rw f (ap some e)) (rw (← e) ((eq_iff q.action "allow").0 b))
        | inr b ↦ later (subst (WaitsOn pending_allowed) (sym f) (not_allowed b)) (h (rw b at k))
      ]
  event-Approved now db wakes r rest pending_dismissed none f k h = cc
  event-Approved now db wakes r rest pending_dismissed (some q) f k h =
      elim (Bool-cases (q.action == "deny")) [
        | inl b ↦ cc (rw b at k)
        | inr b ↦ later (subst (WaitsOn pending_dismissed) (sym f) (not_denied b)) (h (rw b at k))
      ]
  event-Approved now db wakes r rest (pending_created p) o f k h = later created (h k)
  event-Approved now db wakes r rest (pending_updated p) o f k h = later updated (h k)
  event-Approved now db wakes r rest (waiters_changed d) o f k h = later waiters (h k)
  event-Approved now db wakes r rest (allow_all_changed d) o f k h = later silent (h k)
  event-Approved now db wakes r rest (other d) o f k h = later unrelated (h k)

  wakes-Approved :
      (wakes : List Wake) (r : Rule)
      → wait_for_approval container host port resolved wakes ≡ some r
      → Approved wakes r
  unfolding wait_for_approval
  wakes-Approved [] r h = cc
  wakes-Approved (stopped ∷ wakes) r h = cc
  wakes-Approved (event now db e ∷ wakes) r h =
      event-Approved now db wakes r (wait_for_approval container host port resolved wakes) e
        (find_matching_rule now container host port resolved db) refl h (wakes-Approved wakes r)

  waits-on : (e : Event) (o rest : Option Rule) → WaitsOn e o → on_event e o rest ≡ rest
  waits-on _ _ rest no_rule_yet = refl
  waits-on _ _ rest (not_allowed b) = rw b
  waits-on _ _ rest (not_denied b) = rw b
  waits-on _ _ rest created = refl
  waits-on _ _ rest updated = refl
  waits-on _ _ rest waiters = refl
  waits-on _ _ rest silent = refl
  waits-on _ _ rest unrelated = refl

  Approved-wakes :
      (wakes : List Wake) (r : Rule)
      → Approved wakes r
      → wait_for_approval container host port resolved wakes ≡ some r
  unfolding wait_for_approval
  Approved-wakes _ r (now_approved f a) = rw (f, (eq_iff r.action "allow").1 a)
  Approved-wakes _ r (later {wakes = wakes} w a) = waits-on _ _ _ w ∙ Approved-wakes wakes r a

  -- The loop returns a rule exactly when, before the end of the context and of the grace period and
  -- before any dismissal that finds no rule or one that denies, an approval arrives at whose time the
  -- search finds the rule and the rule allows.
  pub wait_for_approval_iff :
      (wakes : List Wake) (r : Rule)
      → (wait_for_approval container host port resolved wakes ≡ some r) ↔ Approved wakes r
  wait_for_approval_iff wakes r = (wakes-Approved wakes r, Approved-wakes wakes r)
