-- ===== src/Tests/Rules.antt =====
-- The theorems on the rules table at concrete inputs.
use greyproxy.Prelude.{list_eqb, refl, some, none, arith, List, [], ◌∷◌}
use greyproxy.Go.Strings.{codes}
use greyproxy.Store.Rules.{create_rule, new_row, same_key, is_checked}
use greyproxy.Store.Rules.Table.{IsTable}
use greyproxy.Store.Rules.Creation.{Stands, Returns, create_rule-Stands}
use greyproxy.Store.Rules.Calls.{
  RuleCall, created, changed, removed, rules_after, rules_after-IsTable,
}
use greyproxy.Tests.Samples.{input, two_rules}

pub two_rules-IsTable : IsTable two_rules
unfolding same_key is_checked list_eqb
two_rules-IsTable = record {
  rows = (
    record { handed_out = omega arith; checked = refl },
    (record { handed_out = omega arith; checked = refl }, tt),
  );
  apart = ((record { ids = omega arith; keys = refl }, tt), (tt, tt));
}

create_rule-Stands_example :
    Returns (Stands 100 (new_row 100 input)) (create_rule 100 input two_rules)
unfolding new_row is_checked
create_rule-Stands_example = create_rule-Stands 100 input two_rules two_rules-IsTable refl

abbrev calls : List RuleCall
calls =
    created 100 input
    ∷ changed 1 (record {
      container_pattern = none;
      destination_pattern = some (codes "example.com");
      port_pattern = none;
      action = none;
      notes = none;
      expires_at = some (some 500);
    })
    ∷ removed 2
    ∷ []

rules_after-IsTable_example : IsTable (rules_after calls two_rules)
rules_after-IsTable_example = rules_after-IsTable calls two_rules two_rules-IsTable
