-- ===== src/EndpointRegistry/Refusals.antt =====
-- The errors of the calls on the endpoint rules.
use greyproxy.Prelude.{
  ℕ, ◌≡◌, true, false, ◌&&◌, List, ◌≢◌, ◌==◌, nat_eq, arith, Bool-cases, Option-cases, inl, inr, In,
  All, any, first, any-In, first-In, first-none-All, any-false,
}
use greyproxy.EndpointRegistry.{EndpointRule}
use greyproxy.EndpointRegistry.Table.{
  EndpointRegistry, Failure, taken, rule_not_found, built_in, rule_not_found_or_built_in, err,
  same_endpoint, create_rule, update_rule, delete_rule, on_row, taken_by_other,
}

-- Why UpdateRule refuses to write the rule under the id.
abbrev pub Refusal : ℕ → EndpointRule → List EndpointRule → Failure → Type 0
Refusal id rule table rule_not_found = All (λ r. (r.id == id) ≡ false) table
Refusal id rule table built_in =
    (r : EndpointRule) × In r table × (r.id ≡ id) × (r.user_defined ≡ false)
Refusal id rule table taken =
    (r : EndpointRule) × In r table
    × (r.id ≢ id)
    × (same_endpoint (record rule { id = id; user_defined = true }) r ≡ true)
Refusal id rule table rule_not_found_or_built_in = ⊥

-- Why DeleteRule refuses the id.
abbrev pub NotDeletable : ℕ → List EndpointRule → Type 0
NotDeletable id table = All (λ r. (r.id == id && r.user_defined) ≡ false) table

-- Why CreateRule refuses the rule.
abbrev pub IsTaken : EndpointRule → List EndpointRule → Type 0
IsTaken rule table =
    (r : EndpointRule) × In r table × (same_endpoint (record rule { user_defined = true }) r ≡ true)

on_row-refused :
    (id : ℕ) (rule : EndpointRule) (reg : EndpointRegistry) (f : Failure)
    → (on_row id rule reg (first (λ r. r.id == id) reg.table)).1 ≡ err f
    → ((on_row id rule reg (first (λ r. r.id == id) reg.table)).0 ≡ reg)
      × Refusal id rule reg.table f
unfolding taken_by_other
on_row-refused id rule reg f h = elim (Option-cases (first (λ r. r.id == id) reg.table)) [
  | inl n ↦
      let e : rule_not_found ≡ f = cc (rw n at h) in
      (rw n, rw (← e) (first-none-All (λ r. r.id == id) reg.table n))
  | inr (r, found) ↦
      let (i, t) = first-In (λ r. r.id == id) reg.table found in
      elim (Bool-cases r.user_defined) [
        | inr b ↦
            let e : built_in ≡ f = cc (rw (found, b) at h) in
            (rw (found, b), rw (← e) (r, i, ground (arith, t), b))
        | inl u ↦ elim (Bool-cases (taken_by_other id rule reg.table)) [
          | inl clash ↦
              let e : taken ≡ f = cc (rw (found, u, clash) at h) in
              let (q, j, both) = any-In _ reg.table clash in
              (rw (found, u, clash), rw (← e) (q, j, ground (arith, both), ground (arith, both)))
          | inr free ↦ cc (rw (found, u, free) at h)
        ]
      ]
]

pub refused_unchanged :
    (reg : EndpointRegistry) (id : ℕ) (rule : EndpointRule) (f : Failure)
    → ((create_rule rule reg).1 ≡ err f
        → ((create_rule rule reg).0 ≡ reg) × (f ≡ taken) × IsTaken rule reg.table)
      × ((update_rule id rule reg).1 ≡ err f
          → ((update_rule id rule reg).0 ≡ reg) × Refusal id rule reg.table f)
      × ((delete_rule id reg).1 ≡ err f
          → ((delete_rule id reg).0 ≡ reg)
            × (f ≡ rule_not_found_or_built_in)
            × NotDeletable id reg.table)
unfolding create_rule update_rule delete_rule same_endpoint
refused_unchanged reg id rule f = (
  λ h.
      let row = record rule { id = reg.next_id; user_defined = true } in
      elim (Bool-cases (any (same_endpoint row) reg.table)) [
        | inr free ↦ cc (rw free at h)
        | inl clash ↦
            let e : taken ≡ f = cc (rw clash at h) in (rw clash, cc e, any-In _ reg.table clash)
      ],
  on_row-refused id rule reg f,
  λ h. elim (Bool-cases (any (λ r. r.id == id && r.user_defined) reg.table)) [
    | inl found ↦ cc (rw found at h)
    | inr absent ↦
        let e : rule_not_found_or_built_in ≡ f = cc (rw absent at h) in
        (rw absent, cc e, any-false _ reg.table absent)
  ],
)
