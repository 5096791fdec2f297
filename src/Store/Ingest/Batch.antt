-- ===== src/Store/Ingest/Batch.antt =====
-- After a batch every one of its rules is in the table.
use greyproxy.Prelude.{
  ℕ, ltb, pos, String, ◌≡◌, refl, ap, subst, Bool, true, false, Option, none, some, List, [], ◌∷◌,
  ◌++◌, arith, nat_eq, list_eq, string_eq, if◌then◌else◌, Bool-cases, inl, inr, In, In-keep,
  first-In, any, All, All-weaken,
}
use greyproxy.Go.Strings.{Str}
use greyproxy.Store.{Rule, PendingRequest, Db}
use greyproxy.Store.Rules.{
  RuleCreateInput, Result, ok, err, create_rule, new_row, drop_expired, insert_rule, on_insert,
  is_checked, is_live, same_key, find_existing_rule, or_default, or_any_port,
}
use greyproxy.Store.Rules.Table.{IsTable, create_rule-IsTable}
use greyproxy.Store.Rules.Creation.{Stands, Returns, create_rule-Stands}
use greyproxy.Store.Pending.{delete_pending_siblings}
use greyproxy.Store.Pending.Listing.{get_pending_requests}
use greyproxy.Store.Ingest.{
  IngestRuleInput, IngestResult, create_input, existing, on_existing, on_created, import_rules,
  clean_pending, clean_up, ingest_rules, everything, is_settled, one_cleaned,
}

In-append_left : (a : Rule) (xs ys : List Rule) → In a xs → In a (xs ++ ys)
In-append_left a [] ys i = absurd i
In-append_left a (x ∷ xs) ys (inl e) = inl e
In-append_left a (x ∷ xs) ys (inr i) = inr (In-append_left a xs ys i)

drop_expired-keeps :
    (now : ℕ) (r q : Rule) (db : Db)
    → In q db.rules
    → is_live now q ≡ true
    → In q (drop_expired now r db).rules
unfolding drop_expired
drop_expired-keeps now r q db i live = In-keep _ q db.rules i (ground (arith, live))

insert_rule-keeps :
    (r q : Rule) (db db' : Db) → In q db.rules → insert_rule r db ≡ ok db' → In q db'.rules
unfolding insert_rule
insert_rule-keeps r q db db' i e = elim (Bool-cases (is_checked r.rule_type r.action)) [
  | inr c ↦ cc (rw c at e)
  | inl c ↦
      elim (Bool-cases (
        any (same_key r.container_pattern r.destination_pattern r.port_pattern r.action)
          db.rules)) [
            | inl u ↦ cc (rw (c, u) at e)
            | inr u ↦ subst (In q) (rules_of (rw (c, u) at e)) (In-append_left q db.rules _ i)
          ]
]
  where
    rules : Result Db → List Rule
    rules (ok d) = d.rules
    rules (err x) = []

    rules_of : {d : Db} → ok d ≡ ok db' → d.rules ≡ db'.rules
    rules_of h = ap rules h

-- A live rule of the table is still there after a call of CreateRule.
create_rule-keeps :
    (now : ℕ) (input : RuleCreateInput) (db : Db) (x q : Rule)
    → Stands now x db q
    → Stands now x (create_rule now input db).0 q
unfolding create_rule
create_rule-keeps now input db x q s = go (insert_rule r d) refl
  where
    r : Rule
    r = new_row now input

    d : Db
    d = drop_expired now r db

    there : In q d.rules
    there = drop_expired-keeps now r q db s.present s.live

    go : (res : Result Db) → insert_rule r d ≡ res → Stands now x (on_insert now r d res).0 q
    go (ok db') e = record {
      present = insert_rule-keeps r q d db' there e;
      live = s.live;
      key = s.key;
    }
    go (err y) e = record { present = there; live = s.live; key = s.key }

action_twice : (a : String) → or_default "allow" (or_default "allow" a) ≡ or_default "allow" a
action_twice a = ground arith

-- Some live rule has the key that the input asks for.
pub record IsImported (now : ℕ) (db : Db) (r : IngestRuleInput) : Type 0 where
  pub rule : Rule
  pub stands : Stands now (new_row now (create_input r)) db rule

existing-IsImported :
    (now : ℕ) (r : IngestRuleInput) (db : Db) {q : Rule}
    → existing now (create_input r) db ≡ some q
    → IsImported now db r
unfolding find_existing_rule create_input new_row
existing-IsImported now r db {q} e =
    let (i, k) = first-In _ db.rules e in
    record {
      rule = q;
      stands = record {
        present = i;
        live = ground (arith, k);
        key = rw (port_twice r.port_pattern, action_twice r.action) (ground (arith, k));
      };
    }
  where
    port_twice : (p : Str) → or_any_port (or_any_port p) ≡ or_any_port p
    port_twice [] = refl
    port_twice (c ∷ p) = refl

-- The call succeeded, and `P` holds of the database that it leaves.
abbrev pub Succeeds : (Db → Type 0) → Db × Result IngestResult → Type 0
Succeeds P (db, ok counts) = P db
Succeeds P (db, err e) = ⊥

abbrev pub HasAction : IngestRuleInput → Type 0
HasAction r = is_checked "permanent" (or_default "allow" r.action) ≡ true

record Imports (now : ℕ) (rs : List IngestRuleInput) (db db' : Db) : Type 0 where
  imported : All (IsImported now db') rs
  kept : (x q : Rule) → Stands now x db q → Stands now x db' q

Succeeds-map :
    {P Q : Db → Type 0} (res : Db × Result IngestResult)
    → ((d : Db) → P d → Q d)
    → Succeeds P res
    → Succeeds Q res
Succeeds-map (d, ok counts) f s = f d s
Succeeds-map (d, err e) f s = s

one_more :
    (now : ℕ) (r : IngestRuleInput) (rs : List IngestRuleInput) (db d db' : Db)
    → ((x q : Rule) → Stands now x db q → Stands now x d q)
    → IsImported now d r
    → Imports now rs d db'
    → Imports now (r ∷ rs) db db'
one_more now r rs db d db' keeps one more = record {
  imported = (record { rule = one.rule; stands = more.kept _ _ one.stands }, more.imported);
  kept = λ x q s. more.kept x q (keeps x q s);
}

module _ (now : ℕ) (r : IngestRuleInput) (rs : List IngestRuleInput)
    (k : Db → IngestResult → Db × Result IngestResult)
    (rest : (d : Db) (counts : IngestResult)
      → IsTable d
      → Succeeds (Imports now rs d) (k d counts)) where
  created-Imports :
      (db : Db) (counts : IngestResult) (res : Db × Result (Option Rule))
      → IsTable res.0
      → ((x q : Rule) → Stands now x db q → Stands now x res.0 q)
      → Returns (Stands now (new_row now (create_input r))) res
      → Succeeds (Imports now (r ∷ rs) db) (on_created k counts res)
  created-Imports db counts (d, ok (some q)) t keeps s =
      Succeeds-map (k d _)
        (λ db'. one_more now r rs db d db' keeps (record { rule = q; stands = s })) (rest d _ t)
  created-Imports db counts (d, ok none) t keeps s = absurd s
  created-Imports db counts (d, err e) t keeps s = absurd s

  existing-Imports :
      (db : Db) (counts : IngestResult)
      → IsTable db
      → HasAction r
      → (o : Option Rule) → existing now (create_input r) db ≡ o
      → Succeeds (Imports now (r ∷ rs) db) (on_existing now (create_input r) k db counts o)
  unfolding create_input new_row
  existing-Imports db counts t a (some q) e =
      Succeeds-map (k db _)
        (λ db'. one_more now r rs db db db' (λ x q s. s) (existing-IsImported now r db e))
        (rest db _ t)
  existing-Imports db counts t a none e =
      created-Imports db counts (create_rule now (create_input r) db)
        (create_rule-IsTable now (create_input r) db t)
        (λ x q. create_rule-keeps now (create_input r) db x q)
        (create_rule-Stands now (create_input r) db t (rw (action_twice r.action) a))

import-Imports :
    (now : ℕ) (rs : List IngestRuleInput) (db : Db) (counts : IngestResult)
    → IsTable db
    → All HasAction rs
    → Succeeds (Imports now rs db) (import_rules now rs db counts)
unfolding import_rules
import-Imports now [] db counts t a = record { imported = tt; kept = λ x q s. s }
import-Imports now (r ∷ rs) db counts t a =
    existing-Imports now r rs (import_rules now rs) (λ d c u. import-Imports now rs d c u a.1) db
      counts t a.0 _ refl

clean_pending-rules :
    (now : ℕ) (ps : List PendingRequest) (db : Db) (counts : IngestResult)
    → (clean_pending now ps db counts).0.rules ≡ db.rules
unfolding clean_pending delete_pending_siblings
clean_pending-rules now [] db counts = refl
clean_pending-rules now (p ∷ ps) db counts =
    chosen (is_settled now p db) _ _
      (clean_pending-rules now ps (delete_pending_siblings p db).0 (one_cleaned counts))
      (clean_pending-rules now ps db counts)
  where
    chosen :
        (b : Bool) (x y : Db × IngestResult)
        → x.0.rules ≡ db.rules
        → y.0.rules ≡ db.rules
        → (if b then x else y).0.rules ≡ db.rules
    chosen true x y p q = p
    chosen false x y p q = q

same_rules :
    (now : ℕ) (rs : List IngestRuleInput) (d d' : Db)
    → d'.rules ≡ d.rules
    → All (IsImported now d) rs
    → All (IsImported now d') rs
same_rules now rs d d' e = All-weaken rs λ r one. record {
  rule = one.rule;
  stands = record {
    present = rw e one.stands.present;
    live = one.stands.live;
    key = one.stands.key;
  };
}

either_result :
    (P : Db → Type 0) (b : Bool) (x y : Db × Result IngestResult)
    → Succeeds P x
    → Succeeds P y
    → Succeeds P (if b then x else y)
either_result P true x y p q = p
either_result P false x y p q = q

clean_up-IsImported :
    (now : ℕ) (rs : List IngestRuleInput) (res : Db × Result IngestResult)
    → Succeeds (λ d. All (IsImported now d) rs) res
    → Succeeds (λ d. All (IsImported now d) rs) (clean_up now res)
unfolding clean_up
clean_up-IsImported now rs (d, err e) s = s
clean_up-IsImported now rs (d, ok counts) s =
    either_result (λ d. All (IsImported now d) rs) (ltb 0 counts.imported) _ (d, ok counts)
      (same_rules now rs d (clean_pending now listed d counts).0
        (clean_pending-rules now listed d counts) s)
      s
  where
    listed : List PendingRequest
    listed = (get_pending_requests everything (pos 10000) 0 d).0

-- If the table keeps its constraints and each rule of the batch has the action allow, deny or none,
-- IngestRules succeeds, and for each rule of the batch a live rule with its patterns and action,
-- defaults filled in, is in the table.
pub ingest_rules-IsImported :
    (now : ℕ) (rs : List IngestRuleInput) (db : Db)
    → IsTable db
    → All HasAction rs
    → Succeeds (λ db'. All (IsImported now db') rs) (ingest_rules now rs db)
unfolding ingest_rules
ingest_rules-IsImported now rs db t a = clean_up-IsImported now rs (import_rules now rs db _) (
    Succeeds-map (import_rules now rs db _) (λ d (i : Imports now rs db d). i.imported)
      (import-Imports now rs db _ t a))
