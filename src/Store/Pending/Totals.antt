-- ===== src/Store/Pending/Totals.antt =====
-- The attempts that GetPendingRequests shows.
use greyproxy.Prelude.{◌+◌, ◌≡◌, refl, Bool, List, [], ◌∷◌, ltb, arith, keep, Bool-cases, inl, inr}
use greyproxy.Store.{PendingRequest, Db}
use greyproxy.Store.Pending.Attempts.{total_attempts}
use greyproxy.Store.Pending.Listing.{
  same_group, take_in, add_row, group_rows, insert_row, sort_rows, consolidated,
}

total-add_row :
    (p : PendingRequest) (gs : List PendingRequest)
    → total_attempts (add_row p gs) ≡ p.attempt_count + total_attempts gs
unfolding total_attempts add_row take_in
total-add_row p [] = refl
total-add_row p (g ∷ gs) = elim (Bool-cases (same_group p g)) [
  | inl q ↦ rw q (omega arith)
  | inr q ↦ rw q (omega (arith, total-add_row p gs))
]

total-group_rows :
    (groups ps : List PendingRequest)
    → total_attempts (group_rows groups ps) ≡ total_attempts groups + total_attempts ps
unfolding total_attempts group_rows
total-group_rows groups [] = omega arith
total-group_rows groups (p ∷ ps) =
    omega (arith, total-group_rows (add_row p groups) ps, total-add_row p groups)

total-insert_row :
    (p : PendingRequest) (ps : List PendingRequest)
    → total_attempts (insert_row p ps) ≡ p.attempt_count + total_attempts ps
unfolding total_attempts insert_row
total-insert_row p [] = refl
total-insert_row p (q ∷ qs) = elim (Bool-cases (ltb q.last_seen p.last_seen)) [
  | inl b ↦ rw b
  | inr b ↦ rw b (omega (arith, total-insert_row p qs))
]

total-sort_rows : (ps : List PendingRequest) → total_attempts (sort_rows ps) ≡ total_attempts ps
unfolding total_attempts sort_rows
total-sort_rows [] = refl
total-sort_rows (p ∷ ps) = omega (arith, total-insert_row p (sort_rows ps), total-sort_rows ps)

-- No attempt is lost or shown twice when rows are shown as one: the attempts of all groups are those
-- of the rows that the filter wants.
pub total_attempts-consolidated :
    (wanted : PendingRequest → Bool) (db : Db)
    → total_attempts (consolidated wanted db) ≡ total_attempts (keep wanted db.pending)
unfolding consolidated total_attempts
total_attempts-consolidated wanted db = omega (
  arith,
  total-group_rows [] (sort_rows (keep wanted db.pending)),
  total-sort_rows (keep wanted db.pending),
)
