-- ===== src/ConnTracker/History.antt =====
-- The tracker against the history of its calls.
use greyproxy.Prelude.{
  ℕ, suc, ◌≡◌, refl, ap, ◌∙◌, true, false, not, List, [], ◌∷◌, ◌==◌, nat_eq, arith, if◌then◌else◌,
  keep, Bool-cases, inl, inr,
}
use greyproxy.ConnTracker.{
  Conns, ConnTracker, new_conn_tracker, conns_of, delete_rule, put, register, store_back, known,
  unregister, cancel_by_rule,
}

pub data Call : Type 0 where
  registered : ℕ → Call
  unregistered : ℕ → ℕ → Call
  cancelled : ℕ → Call

-- The calls, the last one in front.
abbrev pub after : List Call → ConnTracker
after [] = new_conn_tracker
after (registered rule ∷ calls) = (register rule (after calls)).0
after (unregistered rule id ∷ calls) = unregister rule id (after calls)
after (cancelled rule ∷ calls) = (cancel_by_rule rule (after calls)).0

-- How many connections were registered: the last id that was given.
abbrev pub last_id : List Call → ℕ
last_id [] = 0
last_id (registered rule ∷ calls) = suc (last_id calls)
last_id (unregistered rule id ∷ calls) = last_id calls
last_id (cancelled rule ∷ calls) = last_id calls

-- The connections that were registered under the rule and neither unregistered nor cancelled since.
abbrev pub open_under : ℕ → List Call → List ℕ
open_under rule [] = []
open_under rule (registered r ∷ calls) =
    if r == rule then suc (last_id calls) ∷ open_under rule calls else open_under rule calls
open_under rule (unregistered r id ∷ calls) =
    if r == rule then keep (λ c. not (c == id)) (open_under rule calls) else open_under rule calls
open_under rule (cancelled r ∷ calls) = if r == rule then [] else open_under rule calls

conns_of-delete :
    (rule other : ℕ) (conns : Conns)
    → conns_of other (delete_rule rule conns) ≡ (if rule == other then [] else conns_of other conns)
unfolding conns_of delete_rule keep
conns_of-delete rule other [] = ground arith
conns_of-delete rule other ((r, ids) ∷ conns) = ground (arith, conns_of-delete rule other conns)

conns_of-put :
    (rule other : ℕ) (ids : List ℕ) (conns : Conns)
    → conns_of other (put rule ids conns) ≡ (if rule == other then ids else conns_of other conns)
unfolding conns_of put
conns_of-put rule other ids conns = ground (arith, conns_of-delete rule other conns)

conns_of-store :
    (rule other : ℕ) (ids : List ℕ) (conns : Conns)
    → conns_of other (store_back rule ids conns)
      ≡ (if rule == other then ids else conns_of other conns)
conns_of-store rule other [] conns = conns_of-delete rule other conns
conns_of-store rule other (id ∷ ids) conns = conns_of-put rule other (id ∷ ids) conns

conns_of-unknown : (rule : ℕ) (conns : Conns) → known rule conns ≡ false → conns_of rule conns ≡ []
unfolding conns_of
conns_of-unknown rule [] h = refl
conns_of-unknown rule ((r, ids) ∷ conns) h = ground (arith, conns_of-unknown rule conns)

keep_none : (id : ℕ) → keep (λ c. not (c == id)) [] ≡ []
unfolding keep
keep_none id = refl

unknown_other :
    (rule other : ℕ) (conns : Conns)
    → known rule conns ≡ false
    → (rule == other) ≡ true
    → conns_of other conns ≡ []
unknown_other rule other conns h e =
    let same : rule ≡ other = ground arith in rw (← same) (conns_of-unknown rule conns h)

conns_of-unregister :
    (rule other id : ℕ) (t : ConnTracker)
    → conns_of other (unregister rule id t).conns ≡ (
        if rule == other
        then keep (λ c. not (c == id)) (conns_of other t.conns)
        else conns_of other t.conns)
unfolding unregister
conns_of-unregister rule other id t = elim (Bool-cases (known rule t.conns)) [
  | inl q ↦
      rw (q, conns_of-store rule other (keep (λ c. not (c == id)) (conns_of rule t.conns)) t.conns)
        (ground arith)
  | inr q ↦ rw q (ground (arith, keep_none id, unknown_other rule other t.conns q))
]

counter_kept :
    (rule id : ℕ) (t : ConnTracker) → (unregister rule id t).next_conn_id ≡ t.next_conn_id
unfolding unregister
counter_kept rule id t = elim (Bool-cases (known rule t.conns)) [ inl q ↦ rw q | inr q ↦ rw q ]

counted : (calls : List Call) → (after calls).next_conn_id ≡ last_id calls
unfolding register unregister cancel_by_rule
counted [] = refl
counted (registered rule ∷ calls) = ap suc (counted calls)
counted (unregistered rule id ∷ calls) = counter_kept rule id (after calls) ∙ counted calls
counted (cancelled rule ∷ calls) = counted calls

conns_of-after :
    (rule : ℕ) (calls : List Call) → conns_of rule (after calls).conns ≡ open_under rule calls
unfolding register cancel_by_rule conns_of
conns_of-after rule [] = refl
conns_of-after rule (registered r ∷ calls) =
    conns_of-put r rule (suc (after calls).next_conn_id ∷ conns_of r (after calls).conns)
      (after calls).conns
    ∙ rw (counted calls) (ground (arith, conns_of-after rule calls))
conns_of-after rule (unregistered r id ∷ calls) =
    conns_of-unregister r rule id (after calls) ∙ rw (conns_of-after rule calls)
conns_of-after rule (cancelled r ∷ calls) =
    conns_of-delete r rule (after calls).conns ∙ rw (conns_of-after rule calls)

-- Whatever the calls before, CancelByRule cancels exactly the connections that were registered under
-- the rule and neither unregistered nor cancelled since.
pub cancel_by_rule-open_under :
    (rule : ℕ) (calls : List Call) → (cancel_by_rule rule (after calls)).1 ≡ open_under rule calls
unfolding cancel_by_rule
cancel_by_rule-open_under rule calls = conns_of-after rule calls
