-- ===== src/Tests/Samples.antt =====
-- The databases of the examples.
use greyproxy.Prelude.{none, some, [], ◌∷◌, pos}
use greyproxy.Go.Strings.{codes}
use greyproxy.Store.{Rule, PendingRequest, Db, empty}
use greyproxy.Store.Rules.{RuleCreateInput}

abbrev pub input : RuleCreateInput
input = record {
  container_pattern = codes "app-*";
  destination_pattern = codes "example.com";
  port_pattern = codes "443";
  rule_type = "";
  action = "";
  expires_in_seconds = some (pos 60);
  notes = none;
  created_by = "";
}

abbrev pub allow_app : Rule
allow_app = record {
  id = 1;
  container_pattern = codes "app-*";
  destination_pattern = codes "*";
  port_pattern = codes "443";
  rule_type = "permanent";
  action = "allow";
  created_at = 10;
  expires_at = none;
  last_used_at = none;
  created_by = "admin";
  notes = none;
  session_id = none;
}

abbrev pub deny_all : Rule
deny_all = record allow_app {
  id = 2;
  container_pattern = codes "*";
  port_pattern = codes "*";
  action = "deny";
}

abbrev pub two_rules : Db
two_rules = record empty { rules = allow_app ∷ deny_all ∷ []; next_rule = 3 }

abbrev pub request : PendingRequest
request = record {
  id = 1;
  container_name = codes "app-1";
  container_id = codes "c1";
  destination_host = codes "10.0.0.7";
  destination_port = pos 443;
  resolved_hostname = some (codes "example.com");
  first_seen = 10;
  last_seen = 12;
  attempt_count = 3;
}

abbrev pub one_request : Db
one_request = record empty { pending = request ∷ []; next_pending = 2 }
