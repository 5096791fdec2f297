-- ===== src/Tests/Pending.antt =====
-- The theorems on pending requests at concrete inputs.
use greyproxy.Prelude.{◌≡◌, ◌+◌, pos, arith}
use greyproxy.Go.Strings.{codes}
use greyproxy.Store.Pending.{create_or_update_pending}
use greyproxy.Store.Pending.Attempts.{IsTable, total_attempts, create_or_update_pending-counts}
use greyproxy.Tests.Samples.{one_request}

one_request-IsTable : IsTable one_request
one_request-IsTable = record { rows = (omega arith, tt); apart = (tt, tt) }

create_or_update_pending-counts_example :
    IsTable
      (create_or_update_pending 20
        (codes "app-1")
        (codes "c1")
        (codes "10.0.0.8")
        (pos 443)
        (codes "example.com")
        one_request).0
    × (total_attempts
          (create_or_update_pending 20
            (codes "app-1")
            (codes "c1")
            (codes "10.0.0.8")
            (pos 443)
            (codes "example.com")
            one_request).0.pending
        ≡ total_attempts one_request.pending + 1)
create_or_update_pending-counts_example =
    create_or_update_pending-counts 20 (codes "app-1") (codes "c1") (codes "10.0.0.8") (pos 443)
      (codes "example.com") one_request one_request-IsTable
