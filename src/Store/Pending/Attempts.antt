-- ===== src/Store/Pending/Attempts.antt =====
-- The pending table keeps one row for a destination, and counts every attempt once.
use greyproxy.Prelude.{
  ℕ, suc, ◌+◌, ◌<◌, ◌≡◌, ◌↔◌, ap, keep-In, In-keep, refl, false, inl, inr, Option, none, some, List,
  [], ◌∷◌, ◌++◌, map, arith, ◌==◌, nat_eq, list_eq, int_eq, if◌then◌else◌, ℤ, All, Pairs, In,
  Option-cases, All-append, All-map, All-weaken, All-zip, All-In, Pairs-map, Pairs-snoc, first-In,
  first-none-All,
}
use greyproxy.Go.Strings.{Str}
use greyproxy.Store.{PendingRequest, Db}
use greyproxy.Store.Pending.{
  create_or_update_pending, delete_pending_siblings, find_pending_by_destination, find_sibling,
  insert_pending, is_destination, null_if_empty, seen_again, update_pending, goes_with,
}

-- Two rows with ids in the order of the table, and different destinations.
pub record Apart (q r : PendingRequest) : Type 0 where
  pub ids : q.id < r.id
  pub destinations : is_destination r.container_name r.destination_host r.destination_port q ≡ false

pub record IsTable (db : Db) : Type 0 where
  pub rows : All (λ p. p.id < db.next_pending) db.pending
  pub apart : Pairs Apart db.pending

unfoldable pub total_attempts : List PendingRequest → ℕ
total_attempts [] = 0
total_attempts (p ∷ ps) = p.attempt_count + total_attempts ps

-- The step of an update: the row with the id is written, the others stay.
abbrev touch : ℕ → Option Str → ℕ → PendingRequest → PendingRequest
touch now resolved id p = if p.id == id then seen_again now resolved p else p

touch-Apart :
    (now : ℕ) (resolved : Option Str) (id : ℕ) (x y : PendingRequest)
    → Apart x y
    → Apart (touch now resolved id x) (touch now resolved id y)
unfolding seen_again is_destination
touch-Apart now resolved id x y a = record {
  ids = ground (arith, a.ids);
  destinations = ground (arith, a.destinations);
}

update_pending-IsTable :
    (now : ℕ) (resolved : Option Str) (id : ℕ) (db : Db)
    → IsTable db
    → IsTable (update_pending now resolved id db)
unfolding update_pending
update_pending-IsTable now resolved id db t = record {
  rows =
      All-map (λ p. p.id < db.next_pending) (touch now resolved id) db.pending
        (λ p lt. unfold seen_again in ground (arith, lt)) t.rows;
  apart = Pairs-map Apart (touch now resolved id) db.pending (touch-Apart now resolved id) t.apart;
}

insert_pending-IsTable :
    (now : ℕ) (container container_id host : Str) (port : ℤ) (resolved : Option Str) (db : Db)
    → find_pending_by_destination container host port db ≡ none
    → IsTable db
    → IsTable (insert_pending now container container_id host port resolved db)
unfolding insert_pending
insert_pending-IsTable now container container_id host port resolved db free t = record {
  rows =
      All-append (λ p. p.id < suc db.next_pending) db.pending _
        (All-weaken db.pending (λ p lt. omega (arith, lt)) t.rows) (omega arith, tt);
  apart = Pairs-snoc Apart db.pending _ t.apart (
      All-zip db.pending (λ q lt other. record { ids = lt; destinations = other }) t.rows
        (unfold find_pending_by_destination in first-none-All _ db.pending free));
}

-- A call of CreateOrUpdatePending keeps one row at most for a container, host and port.
pub create_or_update_pending-IsTable :
    (now : ℕ) (container container_id host : Str) (port : ℤ) (resolved : Str) (db : Db)
    → IsTable db
    → IsTable (create_or_update_pending now container container_id host port resolved db).0
unfolding create_or_update_pending
create_or_update_pending-IsTable now container container_id host port resolved db t =
    elim (Option-cases (find_pending_by_destination container host port db)) [
      | inr (p, e) ↦ rw e (update_pending-IsTable now (null_if_empty resolved) p.id db t)
      | inl e ↦ elim (Option-cases (find_sibling container resolved port db)) [
        | inr (p, f) ↦ rw (e, f) (update_pending-IsTable now none p.id db t)
        | inl f ↦
            rw (e, f)
              (insert_pending-IsTable now container container_id host port (null_if_empty resolved)
                db e t)
      ]
    ]

total-append :
    (xs ys : List PendingRequest)
    → total_attempts (xs ++ ys) ≡ total_attempts xs + total_attempts ys
unfolding total_attempts
total-append [] ys = omega arith
total-append (x ∷ xs) ys = omega (arith, total-append xs ys)

total-untouched :
    (now : ℕ) (resolved : Option Str) (id : ℕ) (xs : List PendingRequest)
    → All (λ q. id < q.id) xs
    → total_attempts (map (touch now resolved id) xs) ≡ total_attempts xs
unfolding total_attempts seen_again
total-untouched now resolved id [] h = refl
total-untouched now resolved id (x ∷ xs) h =
    ground (arith, total-untouched now resolved id xs h.1, h.0)

total-touched :
    (now : ℕ) (resolved : Option Str) (p : PendingRequest) (xs : List PendingRequest)
    → Pairs Apart xs
    → In p xs
    → total_attempts (map (touch now resolved p.id) xs) ≡ total_attempts xs + 1
unfolding total_attempts seen_again
total-touched now resolved p [] t i = absurd i
total-touched now resolved p (x ∷ xs) t (inl e) =
    let same : p.id ≡ x.id = ap (λ (q : PendingRequest). q.id) e in
    ground (
      arith,
      same,
      total-untouched now resolved p.id xs (All-weaken xs (λ q a. omega (arith, same, a.ids)) t.0),
    )
total-touched now resolved p (x ∷ xs) t (inr i) =
    ground (arith, (All-In (Apart x) xs t.0 i).ids, total-touched now resolved p xs t.1 i)

update-total :
    (now : ℕ) (resolved : Option Str) (p : PendingRequest) (db : Db)
    → IsTable db
    → In p db.pending
    → total_attempts (update_pending now resolved p.id db).pending ≡ total_attempts db.pending + 1
unfolding update_pending
update-total now resolved p db t i = total-touched now resolved p db.pending t.apart i

insert-total :
    (now : ℕ) (container container_id host : Str) (port : ℤ) (resolved : Option Str) (db : Db)
    → total_attempts (insert_pending now container container_id host port resolved db).pending
      ≡ total_attempts db.pending + 1
unfolding insert_pending total_attempts
insert-total now container container_id host port resolved db =
    omega (arith, total-append db.pending _)

found-In :
    (container host : Str) (port : ℤ) (db : Db) {p : PendingRequest}
    → find_pending_by_destination container host port db ≡ some p
    → In p db.pending
unfolding find_pending_by_destination
found-In container host port db e = (first-In _ db.pending e).0

sibling-In :
    (container name : Str) (port : ℤ) (db : Db) {p : PendingRequest}
    → find_sibling container name port db ≡ some p
    → In p db.pending
unfolding find_sibling
sibling-In container [] port db e = cc
sibling-In container (c ∷ name) port db e = (first-In _ db.pending e).0

-- Every call counts one attempt, on whichever row it lands: the attempts of the table grow by one.
pub total_attempts-create :
    (now : ℕ) (container container_id host : Str) (port : ℤ) (resolved : Str) (db : Db)
    → IsTable db
    → total_attempts
        (create_or_update_pending now container container_id host port resolved db).0.pending
      ≡ total_attempts db.pending + 1
unfolding create_or_update_pending
total_attempts-create now container container_id host port resolved db t =
    elim (Option-cases (find_pending_by_destination container host port db)) [
      | inr (p, e) ↦
          rw e
            (update-total now (null_if_empty resolved) p db t (found-In container host port db e))
      | inl e ↦ elim (Option-cases (find_sibling container resolved port db)) [
        | inr (p, f) ↦
            rw (e, f) (update-total now none p db t (sibling-In container resolved port db f))
        | inl f ↦
            rw (e, f)
              (insert-total now container container_id host port (null_if_empty resolved) db)
      ]
    ]

-- deletePendingSiblings leaves exactly the rows that neither are the request nor share its
-- container, its resolved host name and its port.
pub In-delete_pending_siblings :
    (p q : PendingRequest) (db : Db)
    → In q (delete_pending_siblings p db).0.pending ↔ (In q db.pending × (goes_with p q ≡ false))
unfolding delete_pending_siblings
In-delete_pending_siblings p q db = (
  λ i. let (j, t) = keep-In _ q db.pending i in (j, ground (arith, t)),
  λ h. In-keep _ q db.pending h.0 (rw h.1),
)

-- CreateOrUpdatePending keeps one row at most for a container, host and port, and every call counts
-- one attempt, on whichever row it lands: the attempts of the table grow by one.
pub create_or_update_pending-counts :
    (now : ℕ) (container container_id host : Str) (port : ℤ) (resolved : Str) (db : Db)
    → IsTable db
    → IsTable (create_or_update_pending now container container_id host port resolved db).0
      × (total_attempts
            (create_or_update_pending now container container_id host port resolved db).0.pending
          ≡ total_attempts db.pending + 1)
create_or_update_pending-counts now container container_id host port resolved db t = (
  create_or_update_pending-IsTable now container container_id host port resolved db t,
  total_attempts-create now container container_id host port resolved db t,
)
