-- ===== src/Tests/Ingest.antt =====
-- The theorems on batches of rules and on the list of pending requests at concrete inputs.
use greyproxy.Prelude.{◌≡◌, refl, Bool, true, none, [], ◌∷◌, All, keep, List}
use greyproxy.Go.Strings.{codes}
use greyproxy.Store.{PendingRequest, Db}
use greyproxy.Store.Rules.{is_checked}
use greyproxy.Store.Rules.Table.{IsTable}
use greyproxy.Store.Pending.Attempts.{total_attempts}
use greyproxy.Store.Pending.Listing.{consolidated}
use greyproxy.Store.Pending.Totals.{total_attempts-consolidated}
use greyproxy.Store.Ingest.{IngestRuleInput, ingest_rules}
use greyproxy.Store.Ingest.Batch.{HasAction, IsImported, Succeeds, ingest_rules-IsImported}
use greyproxy.Tests.Samples.{request, one_request}

abbrev batch : List IngestRuleInput
batch =
    record {
      container_pattern = codes "app-*";
      destination_pattern = codes "example.com";
      port_pattern = [];
      action = "";
      notes = none;
    }
    ∷ []

batch-HasAction : All HasAction batch
unfolding is_checked
batch-HasAction = (refl, tt)

no_rules-IsTable : IsTable one_request
no_rules-IsTable = record { rows = tt; apart = tt }

ingest_rules-IsImported_example :
    Succeeds (λ db'. All (IsImported 100 db') batch) (ingest_rules 100 batch one_request)
ingest_rules-IsImported_example =
    ingest_rules-IsImported 100 batch one_request no_rules-IsTable batch-HasAction

abbrev any_row : PendingRequest → Bool
any_row p = true

abbrev two_addresses : Db
two_addresses = record one_request {
  pending =
      request
      ∷ record request { id = 2; destination_host = codes "10.0.0.8"; attempt_count = 4 }
      ∷ [];
  next_pending = 3;
}

total_attempts-consolidated_example :
    total_attempts (consolidated any_row two_addresses)
    ≡ total_attempts (keep any_row two_addresses.pending)
total_attempts-consolidated_example = total_attempts-consolidated any_row two_addresses
