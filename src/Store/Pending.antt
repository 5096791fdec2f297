-- ===== src/Store/Pending.antt =====
-- The table of pending requests (internal/greyproxy/crud.go, Pending Requests).
pub mod Attempts
pub mod Listing
pub mod Totals
use greyproxy.Prelude.{
  ℕ, suc, ◌+◌, ◌-◌, Bool, true, false, not, ◌&&◌, Option, none, some, List, [], ◌∷◌, ◌++◌, map, ltb,
  leb, ◌==◌, nat_eq, list_eq, int_eq, if◌then◌else◌, ℤ, keep, first, any, length, take, drop,
}
use greyproxy.Go.Strings.{Str}
use greyproxy.Store.{PendingRequest, Db}

abbrev pub null_if_empty : Str → Option Str
null_if_empty [] = none
null_if_empty (c ∷ s) = some (c ∷ s)

unfoldable pub is_destination : Str → Str → ℤ → PendingRequest → Bool
is_destination container host port p =
    p.container_name == container && p.destination_host == host && p.destination_port == port

-- `resolved_hostname = ?` is not true of NULL.
abbrev pub resolved_is : Str → Option Str → Bool
resolved_is name none = false
resolved_is name (some h) = h == name

unfoldable pub is_sibling : Str → Str → ℤ → PendingRequest → Bool
is_sibling container name port p =
    p.container_name == container
    && resolved_is name p.resolved_hostname
    && p.destination_port == port

-- getPendingByIDLocked, GetPending
unfoldable pub get_pending : ℕ → Db → Option PendingRequest
unfolding first
get_pending id db = first (λ p. p.id == id) db.pending

-- FindPendingByDestination
unfoldable pub find_pending_by_destination : Str → Str → ℤ → Db → Option PendingRequest
unfolding first is_destination
find_pending_by_destination container host port db =
    first (is_destination container host port) db.pending

-- `COALESCE(?, resolved_hostname)`
abbrev pub coalesce : Option Str → Option Str → Option Str
coalesce none old = old
coalesce (some h) old = some h

unfoldable pub seen_again : ℕ → Option Str → PendingRequest → PendingRequest
seen_again now resolved p = record p {
  last_seen = now;
  attempt_count = p.attempt_count + 1;
  resolved_hostname = coalesce resolved p.resolved_hostname;
}

unfoldable pub update_pending : ℕ → Option Str → ℕ → Db → Db
unfolding seen_again
update_pending now resolved id db = record db {
  pending = map (λ p. if p.id == id then seen_again now resolved p else p) db.pending;
}

-- `INSERT INTO pending_requests`, with the defaults of the table. No row has the same destination:
-- the insertion follows a search for one.
unfoldable pub insert_pending : ℕ → Str → Str → Str → ℤ → Option Str → Db → Db
insert_pending now container container_id host port resolved db = record db {
  pending =
      db.pending
      ++ record {
        id = db.next_pending;
        container_name = container;
        container_id = container_id;
        destination_host = host;
        destination_port = port;
        resolved_hostname = resolved;
        first_seen = now;
        last_seen = now;
        attempt_count = 1;
      }
        ∷ [];
  next_pending = suc db.next_pending;
}

abbrev pub reread : ℕ → Bool → Db → Db × Option PendingRequest × Bool
reread id new db = (db, get_pending id db, new)

-- The search for a row that has another address of the same host name.
unfoldable pub find_sibling : Str → Str → ℤ → Db → Option PendingRequest
unfolding is_sibling first
find_sibling container [] port db = none
find_sibling container (c ∷ name) port db = first (is_sibling container (c ∷ name) port) db.pending

abbrev pub on_sibling :
    ℕ → Str → Str → Str → ℤ → Str → Db → Option PendingRequest → Db × Option PendingRequest × Bool
on_sibling now container container_id host port resolved db (some p) =
    reread p.id false (update_pending now none p.id db)
on_sibling now container container_id host port resolved db none =
    reread db.next_pending true
      (insert_pending now container container_id host port (null_if_empty resolved) db)

abbrev pub on_existing :
    ℕ → Str → Str → Str → ℤ → Str → Db → Option PendingRequest → Db × Option PendingRequest × Bool
on_existing now container container_id host port resolved db (some p) =
    reread p.id false (update_pending now (null_if_empty resolved) p.id db)
on_existing now container container_id host port resolved db none =
    on_sibling now container container_id host port resolved db
      (find_sibling container resolved port db)

-- CreateOrUpdatePending: the database, the row, and whether it is new.
unfoldable pub create_or_update_pending :
    ℕ → Str → Str → Str → ℤ → Str → Db → Db × Option PendingRequest × Bool
create_or_update_pending now container container_id host port resolved db =
    on_existing now container container_id host port resolved db
      (find_pending_by_destination container host port db)

-- DeletePending, with whether a row was removed.
unfoldable pub delete_pending : ℕ → Db → Db × Bool
delete_pending id db = (
  record db { pending = keep (λ p. not (p.id == id)) db.pending },
  any (λ p. p.id == id) db.pending,
)

-- The rows that deletePendingSiblings removes with `p`.
unfoldable pub goes_with : PendingRequest → PendingRequest → Bool
unfolding is_sibling
goes_with p q = if q.id == p.id then true else elim p.resolved_hostname [
  | none ↦ false
  | some name ↦ not (name == []) && is_sibling p.container_name name p.destination_port q
]

-- deletePendingSiblings: its two DELETE statements, and the number of rows that they removed.
unfoldable pub delete_pending_siblings : PendingRequest → Db → Db × ℕ
unfolding goes_with keep
delete_pending_siblings p db =
    let rest = keep (λ q. not (goes_with p q)) db.pending in
    (record db { pending = rest }, length db.pending - length rest)

-- DisplayHost
unfoldable pub display_host : PendingRequest → Str
display_host p = elim p.resolved_hostname [
  | none ↦ p.destination_host
  | some name ↦ if name == [] then p.destination_host else name
]
