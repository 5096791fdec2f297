-- ===== src/Store/Ingest.antt =====
-- IngestRules (internal/greyproxy/crud.go): a batch of rules, and the pending requests that they
-- settle.
pub mod Batch
use greyproxy.Prelude.{
  ltb, ℕ, ◌+◌, String, Bool, true, false, Option, none, some, List, [], ◌∷◌, ◌==◌, string_eq,
  if◌then◌else◌, pos,
}
use greyproxy.Go.Strings.{Str}
use greyproxy.Store.{Rule, PendingRequest, Db}
use greyproxy.Store.Rules.{
  RuleCreateInput, Result, ok, err, Violation, create_rule, find_existing_rule, or_default,
  or_any_port,
}
use greyproxy.Store.Matching.{find_matching_rule}
use greyproxy.Store.Pending.{delete_pending_siblings}
use greyproxy.Store.Pending.Listing.{get_pending_requests}

pub record IngestRuleInput : Type 0 where
  pub container_pattern : Str
  pub destination_pattern : Str
  pub port_pattern : Str
  pub action : String
  pub notes : Option String

pub record IngestResult : Type 0 where
  pub imported : ℕ
  pub skipped : ℕ
  pub pending_cleaned : ℕ

-- The input of CreateRule, with the defaults of the batch.
unfoldable pub create_input : IngestRuleInput → RuleCreateInput
create_input r = record {
  container_pattern = r.container_pattern;
  destination_pattern = r.destination_pattern;
  port_pattern = or_any_port r.port_pattern;
  rule_type = "permanent";
  action = or_default "allow" r.action;
  expires_in_seconds = none;
  notes = r.notes;
  created_by = "";
}

abbrev pub existing : ℕ → RuleCreateInput → Db → Option Rule
existing now input db =
    find_existing_rule now input.container_pattern input.destination_pattern input.port_pattern
      input.action db

-- The loop over the rules, in order. An error ends it; what was written stays.
abbrev pub on_created {ℓ} :
    {A : Type ℓ}
    → (Db → IngestResult → Db × Result A)
    → IngestResult
    → Db × Result (Option Rule)
    → Db × Result A
on_created k counts (db, ok r) = k db (record counts { imported = counts.imported + 1 })
on_created k counts (db, err e) = (db, err e)

abbrev pub on_existing {ℓ} :
    {A : Type ℓ}
    → ℕ
    → RuleCreateInput
    → (Db → IngestResult → Db × Result A)
    → Db
    → IngestResult
    → Option Rule
    → Db × Result A
on_existing now input k db counts (some r) = k db (record counts { skipped = counts.skipped + 1 })
on_existing now input k db counts none = on_created k counts (create_rule now input db)

unfoldable pub import_rules :
    ℕ → List IngestRuleInput → Db → IngestResult → Db × Result IngestResult
unfolding create_input create_rule find_existing_rule
import_rules now [] db counts = (db, ok counts)
import_rules now (r ∷ rs) db counts =
    on_existing now (create_input r) (import_rules now rs) db counts
      (existing now (create_input r) db)

abbrev pub resolved_or_empty : Option Str → Str
resolved_or_empty none = []
resolved_or_empty (some name) = name

abbrev allows : Option Rule → Bool
allows none = false
allows (some r) = r.action == "allow"

-- A rule that allows matches the request now.
unfoldable pub is_settled : ℕ → PendingRequest → Db → Bool
unfolding find_matching_rule
is_settled now p db = allows (
    find_matching_rule now p.container_name p.destination_host p.destination_port
      (resolved_or_empty p.resolved_hostname) db)

abbrev pub one_cleaned : IngestResult → IngestResult
one_cleaned counts = record counts { pending_cleaned = counts.pending_cleaned + 1 }

-- The loop over the pending requests: those that a rule allows are removed with their siblings.
unfoldable pub clean_pending : ℕ → List PendingRequest → Db → IngestResult → Db × IngestResult
unfolding is_settled delete_pending_siblings
clean_pending now [] db counts = (db, counts)
clean_pending now (p ∷ ps) db counts =
    let cleaned = clean_pending now ps (delete_pending_siblings p db).0 (one_cleaned counts) in
    let left = clean_pending now ps db counts in if is_settled now p db then cleaned else left

abbrev everything : PendingRequest → Bool
everything p = true

abbrev as_ok : Db × IngestResult → Db × Result IngestResult
as_ok (db, counts) = (db, ok counts)

unfoldable pub clean_up : ℕ → Db × Result IngestResult → Db × Result IngestResult
unfolding clean_pending get_pending_requests
clean_up now (db, err e) = (db, err e)
clean_up now (db, ok counts) =
    if ltb 0 counts.imported
    then as_ok (clean_pending now (get_pending_requests everything (pos 10000) 0 db).0 db counts)
    else (db, ok counts)

-- IngestRules
unfoldable pub ingest_rules : ℕ → List IngestRuleInput → Db → Db × Result IngestResult
unfolding import_rules clean_up
ingest_rules now rules db =
    clean_up now
      (import_rules now rules db (record { imported = 0; skipped = 0; pending_cleaned = 0 }))
