-- ===== src/Store/Approval/Coverage.antt =====
-- What a decision on a pending request leaves in the tables.
use text.Mathlib.TextEquality.{eq_iff}
use greyproxy.Prelude.{
  ℕ, suc, String, ◌≡◌, ◌≢◌, ◌↔◌, refl, sym, ap, subst, ◌∙◌, Bool, true, false, Option, none, some,
  List, [], ◌∷◌, ◌++◌, arith, ◌==◌, string_eq, nat_eq, list_eq, if◌then◌else◌, ℤ, pos, Bool-cases,
  inl, inr, ◌⊎◌, In, first-In, any,
}
use greyproxy.Go.Strings.{Str}
use greyproxy.Patterns.{matches_rule}
use greyproxy.Store.{Rule, PendingRequest, Db}
use greyproxy.Store.Rules.{
  Result, ok, err, RuleCreateInput, same_key, is_checked, is_live, create_rule, new_row, on_insert,
  find_existing_rule, or_default, drop_expired, insert_rule,
}
use greyproxy.Store.Rules.Table.{IsTable}
use greyproxy.Store.Rules.Creation.{Stands, Returns, create_rule-Stands}
use greyproxy.Store.Pending.{get_pending, delete_pending_siblings, display_host, goes_with}
use greyproxy.Store.Pending.Attempts.{In-delete_pending_siblings}
use greyproxy.Store.Approval.Plain.{
  IsPlain, build_patterns-matches, key-matches, or_any_port-matches,
}
use greyproxy.Store.Approval.{
  Outcome, decided, not_found, failed, rule_input, decide, resolve_pending, on_created, on_rule,
  on_request, parse_duration, allow_pending, deny_pending, clear,
}

insert_rule-pending :
    (r : Rule) (db db' : Db) → insert_rule r db ≡ ok db' → db'.pending ≡ db.pending
unfolding insert_rule
insert_rule-pending r db db' e = elim (Bool-cases (is_checked r.rule_type r.action)) [
  | inr q ↦ ground arith
  | inl q ↦
      elim (Bool-cases (
        any (same_key r.container_pattern r.destination_pattern r.port_pattern r.action)
          db.rules)) [ inl f ↦ ground arith | inr f ↦ same_pending (sym e ∙ inserted q f) ]
]
  where
    pending_of : Result Db → List PendingRequest
    pending_of (ok db') = db'.pending
    pending_of (err e) = db.pending

    same_pending : {d : Db} → ok db' ≡ ok d → db'.pending ≡ d.pending
    same_pending h = ap pending_of h

    inserted :
        is_checked r.rule_type r.action ≡ true
        → any (same_key r.container_pattern r.destination_pattern r.port_pattern r.action) db.rules
          ≡ false
        → insert_rule r db
          ≡ ok (record db {
            rules = db.rules ++ record r { id = db.next_rule } ∷ [];
            next_rule = suc db.next_rule;
          })
    inserted q f = rw (q, f)

create_rule-pending :
    (now : ℕ) (input : RuleCreateInput) (db : Db)
    → (create_rule now input db).0.pending ≡ db.pending
unfolding create_rule drop_expired
create_rule-pending now input db = go (insert_rule r d) refl
  where
    r : Rule
    r = new_row now input

    d : Db
    d = drop_expired now r db

    go : (res : Result Db) → insert_rule r d ≡ res → (on_insert now r d res).0.pending ≡ db.pending
    go (ok db') e = insert_rule-pending r d db' e
    go (err x) e = refl

-- A decision was made: a rule came out, and `P` holds of the database and the rule.
abbrev pub Decides : (Db → Rule → Type 0) → Db × Outcome → Type 0
Decides P (db, decided (some r)) = P db r
Decides P (db, decided none) = ⊥
Decides P (db, not_found) = ⊥
Decides P (db, failed e) = ⊥

-- The rule stands in the new database, has not expired, has the action and matches the request's
-- connection; of the pending requests exactly those that go with the request are gone.
pub record IsDecided (action : String) (now : ℕ) (p : PendingRequest) (db db' : Db) (r : Rule)
    : Type 0 where
  pub present : In r db'.rules
  pub live : is_live now r ≡ true
  pub acts : r.action ≡ action
  pub matches :
      matches_rule p.container_name
        (display_host p)
        p.destination_port
        r.container_pattern
        r.destination_pattern
        r.port_pattern
      ≡ true
  pub removed :
      (q : PendingRequest) → In q db'.pending ↔ (In q db.pending × (goes_with p q ≡ false))

IsType : String × Option ℤ → Type 0
IsType t = (t.0 ≡ "permanent") ⊎ (t.0 ≡ "temporary")

lasting :
    (b : Bool) (n : ℕ) (t : String × Option ℤ)
    → IsType t
    → IsType (if b then ("temporary", some (pos n)) else t)
unfolding IsType
lasting true n t h = inr refl
lasting false n t h = h

parse_duration-IsType : (duration : String) → IsType (parse_duration duration)
unfolding parse_duration IsType
parse_duration-IsType duration = lasting (duration == "once") 30 _ (
    lasting (duration == "1h") 3600 _ (
      lasting (duration == "12h") 43200 _ (
        lasting (duration == "24h") 86400 _ (
          lasting (duration == "7d") 604800 _ (lasting (duration == "30d") 2592000 _ (inl refl))))))

checked_input :
    (rule_type action : String)
    → (rule_type ≡ "permanent") ⊎ (rule_type ≡ "temporary")
    → (action ≡ "allow") ⊎ (action ≡ "deny")
    → is_checked (or_default "permanent" rule_type) (or_default "allow" action) ≡ true
unfolding is_checked
checked_input rule_type action (inl t) (inl a) = rw (t, a) refl
checked_input rule_type action (inl t) (inr a) = rw (t, a) refl
checked_input rule_type action (inr t) (inl a) = rw (t, a) refl
checked_input rule_type action (inr t) (inr a) = rw (t, a) refl

rule_input-checked :
    (now : ℕ) (action : String) (p : PendingRequest) (scope duration : String)
    (notes : Option String)
    → (action ≡ "allow") ⊎ (action ≡ "deny")
    → is_checked
        (new_row now (rule_input action p scope duration notes)).rule_type
        (new_row now (rule_input action p scope duration notes)).action
      ≡ true
unfolding new_row rule_input IsType
rule_input-checked now action p scope duration notes a =
    checked_input (parse_duration duration).0 action (parse_duration-IsType duration) a

named :
    {action : String} → (action ≡ "allow") ⊎ (action ≡ "deny") → or_default "allow" action ≡ action
named (inl a) = rw a refl
named (inr a) = rw a refl

module _ (action : String) (now : ℕ) (scope duration : String) (notes : Option String)
    (p : PendingRequest) (db : Db) (allowed : (action ≡ "allow") ⊎ (action ≡ "deny"))
    (plain : IsPlain p) (other : scope ≢ "subdomain_wildcard") where
  input : RuleCreateInput
  input = rule_input action p scope duration notes

  -- A live rule with the key of the input decides on the request.
  own :
      matches_rule p.container_name
        (display_host p)
        p.destination_port
        input.container_pattern
        input.destination_pattern
        input.port_pattern
      ≡ true
  unfolding input rule_input
  own = build_patterns-matches p scope plain other

  standing-IsDecided :
      (d : Db) (r : Rule) (port_pattern : Str)
      → matches_rule p.container_name
          (display_host p)
          p.destination_port
          input.container_pattern
          input.destination_pattern
          port_pattern
        ≡ true
      → d.pending ≡ db.pending
      → In r d.rules
      → is_live now r ≡ true
      → same_key input.container_pattern input.destination_pattern port_pattern action r ≡ true
      → IsDecided action now p db (clear p d) r
  unfolding same_key delete_pending_siblings
  standing-IsDecided d r port_pattern m same present live key = record {
    present = present;
    live = live;
    acts = (eq_iff r.action action).0 (ground arith);
    matches =
        key-matches p.container_name (display_host p) p.destination_port input.container_pattern
          input.destination_pattern port_pattern action r key
        ∙ m;
    removed = λ q. rw (← same) (In-delete_pending_siblings p q d);
  }

  created-IsDecided :
      (res : Db × Result (Option Rule))
      → res.0.pending ≡ db.pending
      → Returns (Stands now (new_row now input)) res
      → Decides (IsDecided action now p db) (on_created p res)
  unfolding on_created new_row input rule_input
  created-IsDecided (d, ok (some r)) same s =
      standing-IsDecided d r _ (or_any_port-matches _ _ _ _ _ _ own) same s.present s.live
        (rw (← named allowed) s.key)
  created-IsDecided (d, ok none) same s = absurd s
  created-IsDecided (d, err e) same s = absurd s

  decide-IsDecided :
      IsTable db → Decides (IsDecided action now p db) (decide action now p scope duration notes db)
  unfolding decide input find_existing_rule
  decide-IsDecided t =
      go
        (find_existing_rule now input.container_pattern input.destination_pattern input.port_pattern
          action db)
        refl
    where
      go :
          (o : Option Rule)
          → find_existing_rule now input.container_pattern input.destination_pattern
              input.port_pattern action db
            ≡ o
          → Decides (IsDecided action now p db) (on_rule now p input db o)
      go (some r) e =
          let (i, k) = first-In _ db.rules e in
          standing-IsDecided db r _ own refl i (ground arith) (ground arith)
      go none e = created-IsDecided (create_rule now input db) (create_rule-pending now input db) (
          create_rule-Stands now input db t
            (rule_input-checked now action p scope duration notes allowed))

  on_request-IsDecided :
      (o : Option PendingRequest)
      → o ≡ some p
      → IsTable db
      → Decides (IsDecided action now p db) (on_request action now scope duration notes db o)
  on_request-IsDecided o e t =
      subst
        (λ o. Decides (IsDecided action now p db) (on_request action now scope duration notes db o))
        (sym e) (decide-IsDecided t)

-- Let the rules table keep its constraints, and let the names of a pending request read as patterns
-- spell themselves. With every scope but the wildcard for subdomains, AllowPending and DenyPending
-- succeed on the request: the rule that they return stands in the new table, has not expired, has
-- the action and matches the request's connection, and of the pending requests exactly those that
-- go with the request are gone.
pub resolve_pending-IsDecided :
    (now id : ℕ) (scope duration : String) (notes : Option String) (p : PendingRequest) (db : Db)
    → IsTable db
    → get_pending id db ≡ some p
    → IsPlain p
    → scope ≢ "subdomain_wildcard"
    → Decides (IsDecided "allow" now p db) (allow_pending now id scope duration notes db)
      × Decides (IsDecided "deny" now p db) (deny_pending now id scope duration notes db)
unfolding allow_pending deny_pending resolve_pending
resolve_pending-IsDecided now id scope duration notes p db t e plain other = (
  on_request-IsDecided "allow" now scope duration notes p db (inl refl) plain other _ e t,
  on_request-IsDecided "deny" now scope duration notes p db (inr refl) plain other _ e t,
)
