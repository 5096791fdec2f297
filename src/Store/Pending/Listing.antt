-- ===== src/Store/Pending/Listing.antt =====
-- GetPendingRequests (internal/greyproxy/crud.go): the rows of one host name under several addresses
-- are shown as one.
use greyproxy.Prelude.{
  ℕ, ◌+◌, Bool, ◌&&◌, List, [], ◌∷◌, ltb, ◌==◌, list_eq, int_eq, if◌then◌else◌, ℤ, pos, keep,
  length, take, drop, suc,
}
use greyproxy.Store.{PendingRequest, Db}
use greyproxy.Store.Pending.{display_host}

-- The rows have one key: the container, the shown host and the port.
unfoldable pub same_group : PendingRequest → PendingRequest → Bool
unfolding display_host
same_group p g =
    g.container_name == p.container_name
    && display_host g == display_host p
    && g.destination_port == p.destination_port

-- The group takes in a row: the attempts add up, the span of the times grows.
unfoldable pub take_in : PendingRequest → PendingRequest → PendingRequest
take_in g p = record g {
  attempt_count = g.attempt_count + p.attempt_count;
  first_seen = if ltb p.first_seen g.first_seen then p.first_seen else g.first_seen;
  last_seen = if ltb g.last_seen p.last_seen then p.last_seen else g.last_seen;
}

unfoldable pub add_row : PendingRequest → List PendingRequest → List PendingRequest
unfolding same_group take_in
add_row p [] = p ∷ []
add_row p (g ∷ gs) =
    let rest = add_row p gs in if same_group p g then take_in g p ∷ gs else g ∷ rest

unfoldable pub group_rows : List PendingRequest → List PendingRequest → List PendingRequest
unfolding add_row
group_rows groups [] = groups
group_rows groups (p ∷ ps) = group_rows (add_row p groups) ps

-- `ORDER BY last_seen DESC`, by insertion; the order of equal times is left open by SQL.
unfoldable pub insert_row : PendingRequest → List PendingRequest → List PendingRequest
insert_row p [] = p ∷ []
insert_row p (q ∷ qs) =
    let rest = insert_row p qs in if ltb q.last_seen p.last_seen then p ∷ q ∷ qs else q ∷ rest

unfoldable pub sort_rows : List PendingRequest → List PendingRequest
unfolding insert_row
sort_rows [] = []
sort_rows (p ∷ ps) = insert_row p (sort_rows ps)

abbrev pub page_size : ℤ → ℕ
page_size (pos (suc n)) = suc n
page_size _ = 100

unfoldable pub consolidated : (PendingRequest → Bool) → Db → List PendingRequest
unfolding group_rows sort_rows keep
consolidated wanted db = group_rows [] (sort_rows (keep wanted db.pending))

-- GetPendingRequests: a page of the groups, and the number of all groups. `wanted` stands for the
-- LIKE clauses of the filter.
unfoldable pub get_pending_requests : (PendingRequest → Bool) → ℤ → ℕ → Db → List PendingRequest × ℕ
unfolding consolidated
get_pending_requests wanted limit offset db =
    let groups = consolidated wanted db in
    (take (page_size limit) (drop offset groups), length groups)
