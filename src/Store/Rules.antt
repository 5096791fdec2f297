-- ===== src/Store/Rules.antt =====
-- The rules table (internal/greyproxy/crud.go, Rules): creation, lookup, change and removal.
pub mod Table
pub mod Creation
pub mod Calls
use greyproxy.Prelude.{
  ℕ, suc, ◌+◌, String, Bool, true, false, not, ◌&&◌, ◌||◌, Option, none, some, List, [], ◌∷◌, ◌++◌,
  map, ltb, leb, ◌==◌, nat_eq, list_eq, string_eq, if◌then◌else◌, ℤ, pos, keep, first, any, length,
}
use greyproxy.Go.Strings.{Str}
use greyproxy.Store.{Rule, Db}

pub record RuleCreateInput : Type 0 where
  pub container_pattern : Str
  pub destination_pattern : Str
  pub port_pattern : Str
  pub rule_type : String
  pub action : String
  pub expires_in_seconds : Option ℤ
  pub notes : Option String
  pub created_by : String

pub record RuleUpdateInput : Type 0 where
  pub container_pattern : Option Str
  pub destination_pattern : Option Str
  pub port_pattern : Option Str
  pub action : Option String
  pub notes : Option String
  pub expires_at : Option (Option ℕ)  -- the empty text is `some none`

-- Why a statement on the table fails.
pub data Violation : Type 0 where
  check_failed unique_failed : Violation

pub data Result {ℓ} (A : Type ℓ) : Type ℓ where
  ok : A → Result A
  err : Violation → Result A

-- `expires_at IS NULL OR expires_at > now`
unfoldable pub is_live : ℕ → Rule → Bool
is_live now r = elim r.expires_at [ none ↦ true | some t ↦ ltb now t ]

-- The columns of the table's UNIQUE constraint.
unfoldable pub same_key : Str → Str → Str → String → Rule → Bool
same_key container destination port action r =
    r.container_pattern == container
    && r.destination_pattern == destination
    && r.port_pattern == port
    && r.action == action

-- The CHECK constraints of the columns `rule_type` and `action`.
unfoldable pub is_checked : String → String → Bool
is_checked rule_type action =
    (rule_type == "permanent" || rule_type == "temporary")
    && (action == "allow" || action == "deny")

-- GetRule
unfoldable pub get_rule : ℕ → List Rule → Option Rule
get_rule id rules = first (λ r. r.id == id) rules

-- findExistingRule
unfoldable pub find_existing_rule : ℕ → Str → Str → Str → String → Db → Option Rule
unfolding same_key is_live first
find_existing_rule now container destination port action db =
    first (λ r. same_key container destination port action r && is_live now r) db.rules

-- `INSERT INTO rules`: the row gets the next id.
unfoldable pub insert_rule : Rule → Db → Result Db
unfolding same_key is_checked any
insert_rule r db =
    if not (is_checked r.rule_type r.action)
    then err check_failed
    else if any (same_key r.container_pattern r.destination_pattern r.port_pattern r.action)
        db.rules
    then err unique_failed
    else ok (record db {
      rules = db.rules ++ record r { id = db.next_rule } ∷ [];
      next_rule = suc db.next_rule;
    })

abbrev pub or_default : String → String → String
or_default default s = if s == "" then default else s

abbrev pub or_any_port : Str → Str
or_any_port [] = b'*' ∷ []
or_any_port (c ∷ s) = c ∷ s

-- A lifetime that is not positive means none.
abbrev pub expiry : ℕ → Option ℤ → Option ℕ
expiry now (some (pos (suc n))) = some (now + suc n)
expiry now _ = none

-- The row that CreateRule writes: the input with its defaults.
unfoldable pub new_row : ℕ → RuleCreateInput → Rule
new_row now input = record {
  id = 0;
  container_pattern = input.container_pattern;
  destination_pattern = input.destination_pattern;
  port_pattern = or_any_port input.port_pattern;
  rule_type = or_default "permanent" input.rule_type;
  action = or_default "allow" input.action;
  created_at = now;
  expires_at = expiry now input.expires_in_seconds;
  last_used_at = none;
  created_by = or_default "admin" input.created_by;
  notes = input.notes;
  session_id = none;
}

-- The expired row with the key of the new one, if there is one, makes room for it.
unfoldable pub drop_expired : ℕ → Rule → Db → Db
unfolding same_key is_live keep
drop_expired now r db = record db {
  rules =
      keep
        (λ q. not (
          same_key r.container_pattern r.destination_pattern r.port_pattern r.action q
          && not (is_live now q)))
        db.rules;
}

abbrev on_violation : Violation → Option Rule → Result (Option Rule)
on_violation unique_failed (some r) = ok (some r)
on_violation e _ = err e

-- The database that the insertion leaves, and what the caller gets.
abbrev pub on_insert : ℕ → Rule → Db → Result Db → Db × Result (Option Rule)
on_insert now r db (ok db') = (db', ok (get_rule db.next_rule db'.rules))
on_insert now r db (err e) = (
  db,
  on_violation e
      (find_existing_rule now r.container_pattern r.destination_pattern r.port_pattern r.action db),
)

-- CreateRule. On a UNIQUE violation it returns the rule that is there.
unfoldable pub create_rule : ℕ → RuleCreateInput → Db → Db × Result (Option Rule)
unfolding new_row drop_expired insert_rule find_existing_rule get_rule
create_rule now input db =
    let r = new_row now input in
    let db' = drop_expired now r db in on_insert now r db' (insert_rule r db')

abbrev or_old {ℓ} : {A : Type ℓ} → A → Option A → A
or_old a none = a
or_old a (some b) = b

-- The row after `UPDATE rules SET …`.
unfoldable pub updated : RuleUpdateInput → Rule → Rule
updated input r = record r {
  container_pattern = or_old r.container_pattern input.container_pattern;
  destination_pattern = or_old r.destination_pattern input.destination_pattern;
  port_pattern = or_old r.port_pattern input.port_pattern;
  action = or_old r.action input.action;
  notes = elim input.notes [ none ↦ r.notes | some n ↦ some n ];
  expires_at = or_old r.expires_at input.expires_at;
}

-- The other rows of the table hold the key.
unfoldable pub taken_by_other : Rule → List Rule → Bool
taken_by_other r rules =
    any
      (λ q.
        not (q.id == r.id)
        && same_key r.container_pattern r.destination_pattern r.port_pattern r.action q)
      rules

unfoldable pub replace : Rule → List Rule → List Rule
replace r rules = map (λ q. if q.id == r.id then r else q) rules

unfoldable pub write_row : Rule → Db → Db × Result (Option Rule)
unfolding is_checked taken_by_other replace
write_row r db =
    if not (is_checked r.rule_type r.action)
    then (db, err check_failed)
    else if taken_by_other r db.rules
    then (db, err unique_failed)
    else (let rules = replace r db.rules in (record db { rules = rules }, ok (get_rule r.id rules)))

abbrev given {ℓ} : {A : Type ℓ} → Option A → Bool
given none = false
given (some a) = true

-- `len(sets) > 0`
unfoldable pub has_sets : RuleUpdateInput → Bool
has_sets input =
    given input.container_pattern
    || given input.destination_pattern
    || given input.port_pattern
    || given input.action
    || given input.notes
    || given input.expires_at

-- UpdateRule
unfoldable pub update_rule : ℕ → RuleUpdateInput → Db → Db × Result (Option Rule)
unfolding has_sets updated write_row get_rule
update_rule id input db =
    if has_sets input
    then elim (get_rule id db.rules) [
      | none ↦ (db, ok none)
      | some r ↦ write_row (updated input r) db
    ]
    else (db, ok (get_rule id db.rules))

-- DeleteRule, with whether a row was removed.
unfoldable pub delete_rule : ℕ → Db → Db × Bool
delete_rule id db =
    (record db { rules = keep (λ r. not (r.id == id)) db.rules }, any (λ r. r.id == id) db.rules)

-- The background write of FindMatchingRule.
unfoldable pub touch_rule : ℕ → ℕ → Db → Db
touch_rule now id db = record db {
  rules = map (λ r. if r.id == id then record r { last_used_at = some now } else r) db.rules;
}
