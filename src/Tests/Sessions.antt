-- ===== src/Tests/Sessions.antt =====
-- The theorems on sessions at concrete inputs.
use greyproxy.Go.Filepath.{match}
use greyproxy.Patterns.{matches_port, matches_destination, matches_container, matches_rule}
use greyproxy.Prelude.{any, ◌≡◌, ◌↔◌, refl, true, false, some, none, [], ◌∷◌, pos, In, list_eqb}
use greyproxy.Go.Strings.{codes}
use greyproxy.Store.{Rule, Session, Db, empty}
use greyproxy.Store.Rules.Table.{IsTable}
use greyproxy.Store.Matching.{find_matching_rule}
use greyproxy.Store.Matching.Newest.{IsNewest, find_matching_rule-IsNewest}
use greyproxy.Store.Sessions.{
  SessionCreateInput, create_or_update_session, delete_session, delete_expired_sessions,
  get_session, is_session, is_active, belongs,
}
use greyproxy.Store.Sessions.Lifetime.{removed_sessions-gone}
use greyproxy.Store.Sessions.Creation.{IsAsAsked, Gives, create_or_update_session-IsAsAsked}

abbrev asked : SessionCreateInput
asked = record {
  session_id = "s1";
  container_name = codes "app-1";
  mappings_enc = "";
  labels_json = "{}";
  metadata_json = "{}";
  ttl_seconds = pos 0;
  network_rules =
      record {
        destination_pattern = codes "*.example.com";
        port_pattern = [];
        action = "";
        notes = "";
      }
      ∷ [];
  allow_all = false;
}

no_rows : IsTable empty
no_rows = record { rows = tt; apart = tt }

create_or_update_session-IsAsAsked_example :
    IsTable (create_or_update_session 100 asked empty).0
    × Gives (IsAsAsked 100 asked) (create_or_update_session 100 asked empty).1
create_or_update_session-IsAsAsked_example =
    create_or_update_session-IsAsAsked 100 asked empty no_rows

abbrev session_db : Db
session_db = record empty {
  rules =
      record {
        id = 1;
        container_pattern = codes "app-1";
        destination_pattern = codes "*";
        port_pattern = codes "*";
        rule_type = "temporary";
        action = "allow";
        created_at = 100;
        expires_at = some 1000;
        last_used_at = none;
        created_by = "session:s1";
        notes = none;
        session_id = some "s1";
      }
      ∷ [];
  next_rule = 2;
  sessions =
      record {
        session_id = "s1";
        container_name = codes "app-1";
        mappings_enc = "";
        labels_json = "{}";
        metadata_json = "{}";
        ttl_seconds = 900;
        created_at = 100;
        expires_at = 1000;
        last_heartbeat = 100;
        substitution_count = 0;
        allow_all = false;
      }
      ∷ [];
}

abbrev session_rule_found : Rule
session_rule_found = record {
  id = 1;
  container_pattern = codes "app-1";
  destination_pattern = codes "*";
  port_pattern = codes "*";
  rule_type = "temporary";
  action = "allow";
  created_at = 100;
  expires_at = some 1000;
  last_used_at = none;
  created_by = "session:s1";
  notes = none;
  session_id = some "s1";
}

found_session_rule :
    find_matching_rule 500 (codes "app-1") (codes "example.com") (pos 443) [] session_db
    ≡ some session_rule_found
unfolding find_matching_rule any list_eqb matches_rule matches_container match matches_destination
    matches_port
found_session_rule = refl

find_matching_rule-IsNewest_example :
    (s : Session) × (s.session_id ≡ "s1") × IsNewest 500 (codes "app-1") session_db.sessions s
find_matching_rule-IsNewest_example =
    find_matching_rule-IsNewest 500 (codes "app-1") (codes "example.com") (pos 443) [] session_db
      session_rule_found "s1" found_session_rule refl

removed_sessions-gone_example :
    ((get_session "s1" (delete_session "s1" session_db).0 ≡ none)
      × ((r : Rule)
          → In r (delete_session "s1" session_db).0.rules
            ↔ (In r session_db.rules × (belongs "s1" r ≡ false)))
      × ((s : Session)
          → In s (delete_session "s1" session_db).0.sessions
            ↔ (In s session_db.sessions × (is_session "s1" s ≡ false))))
    × ((s : Session)
        → In s (delete_expired_sessions 2000 session_db).0.sessions
          ↔ (In s session_db.sessions × (is_active 2000 s ≡ true)))
    × ((r : Rule)
        → In r (delete_expired_sessions 2000 session_db).0.rules ↔ (
            In r session_db.rules
            × ((s : Session)
                → In s session_db.sessions
                → is_active 2000 s ≡ false
                → belongs s.session_id r ≡ false)))
removed_sessions-gone_example = removed_sessions-gone "s1" 2000 session_db
