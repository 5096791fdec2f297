-- ===== src/Store/Rules/Calls.antt =====
-- Sequences of calls of CreateRule, UpdateRule and DeleteRule (crud.go).
use greyproxy.Prelude.{ℕ, List, [], ◌∷◌}
use greyproxy.Store.{Db}
use greyproxy.Store.Rules.{RuleCreateInput, RuleUpdateInput, create_rule, update_rule, delete_rule}
use greyproxy.Store.Rules.Table.{
  IsTable, create_rule-IsTable, update_rule-IsTable, delete_rule-IsTable,
}

pub data RuleCall : Type 0 where
  created : ℕ → RuleCreateInput → RuleCall
  changed : ℕ → RuleUpdateInput → RuleCall
  removed : ℕ → RuleCall

-- The table after one call, be it one that fails.
abbrev one_call : RuleCall → Db → Db
one_call (created now input) db = (create_rule now input db).0
one_call (changed id input) db = (update_rule id input db).0
one_call (removed id) db = (delete_rule id db).0

abbrev pub rules_after : List RuleCall → Db → Db
rules_after [] db = db
rules_after (c ∷ calls) db = rules_after calls (one_call c db)

one_call-IsTable : (c : RuleCall) (db : Db) → IsTable db → IsTable (one_call c db)
one_call-IsTable (created now input) db t = create_rule-IsTable now input db t
one_call-IsTable (changed id input) db t = update_rule-IsTable id input db t
one_call-IsTable (removed id) db t = delete_rule-IsTable id db t

pub rules_after-IsTable :
    (calls : List RuleCall) (db : Db) → IsTable db → IsTable (rules_after calls db)
rules_after-IsTable [] db t = t
rules_after-IsTable (c ∷ calls) db t =
    rules_after-IsTable calls (one_call c db) (one_call-IsTable c db t)
