-- ===== src/EndpointRegistry/Builtins.antt =====
-- The rules that greyproxy ships stay in force whatever the user does.
use greyproxy.Prelude.{
  ℕ, suc, ◌≡◌, refl, ap, ◌∙◌, Bool, true, false, not, ◌&&◌, Option, none, some, List, [], ◌∷◌, ◌++◌,
  map, ◌==◌, nat_eq, arith, if◌then◌else◌, Bool-cases, inl, inr, any, keep, first, list_eqb, ap₂,
}
use greyproxy.EndpointRegistry.{EndpointRule}
use greyproxy.EndpointRegistry.Table.{
  EndpointRegistry, seed_rule, seed_rules, builtin_rules, same_endpoint, reseeded, reload,
  new_endpoint_registry, create_rule, update_rule, delete_rule, on_row, taken_by_other, write_rule,
}
use greyproxy.EndpointRegistry.Best.{Call, restarted, created, updated, deleted, after}

abbrev pub is_builtin : EndpointRule → Bool
is_builtin r = not r.user_defined

unfoldable pub builtin_rows : EndpointRegistry → List EndpointRule
unfolding keep
builtin_rows reg = keep is_builtin reg.table

-- The rules as the first start writes them, with the ids from 1 on.
abbrev pub numbered : ℕ → List EndpointRule → List EndpointRule
numbered n [] = []
numbered n (r ∷ rules) = record r { id = n } ∷ numbered (suc n) rules

-- A change that leaves built-in rows as they are, and makes none.
module _ (f : EndpointRule → EndpointRule) where
  keep-map_user :
      (rows : List EndpointRule)
      → ((r : EndpointRule) → is_builtin (f r) ≡ is_builtin r)
      → ((r : EndpointRule) → is_builtin r ≡ true → f r ≡ r)
      → keep is_builtin (map f rows) ≡ keep is_builtin rows
  unfolding keep
  keep-map_user [] h k = refl
  keep-map_user (r ∷ rows) h k = elim (Bool-cases (is_builtin r)) [
    | inl b ↦ rw (h r, b) (ap₂ ◌∷◌ (k r b) (keep-map_user rows h k))
    | inr b ↦ rw (h r, b) (keep-map_user rows h k)
  ]

keep-snoc_user :
    (rows : List EndpointRule) (r : EndpointRule)
    → r.user_defined ≡ true
    → keep is_builtin (rows ++ r ∷ []) ≡ keep is_builtin rows
unfolding keep
keep-snoc_user [] r u = rw u
keep-snoc_user (q ∷ rows) r u = ground (arith, keep-snoc_user rows r u)

keep-drop_user :
    (id : ℕ) (rows : List EndpointRule)
    → keep is_builtin (keep (λ r. not (r.id == id && r.user_defined)) rows) ≡ keep is_builtin rows
unfolding keep
keep-drop_user id [] = refl
keep-drop_user id (q ∷ rows) = ground (arith, keep-drop_user id rows)

write_rule-builtin :
    (id : ℕ) (rule r : EndpointRule) → (is_builtin (write_rule id rule r) ≡ is_builtin r)
unfolding write_rule
write_rule-builtin id rule r = ground arith

write_rule-same : (id : ℕ) (rule r : EndpointRule) → is_builtin r ≡ true → write_rule id rule r ≡ r
unfolding write_rule
write_rule-same id rule r b = ground arith

create_rule-builtin :
    (rule : EndpointRule) (reg : EndpointRegistry)
    → builtin_rows (create_rule rule reg).0 ≡ builtin_rows reg
unfolding create_rule builtin_rows reload
create_rule-builtin rule reg =
    let row = record rule { id = reg.next_id; user_defined = true } in
    elim (Bool-cases (any (same_endpoint row) reg.table)) [
      | inl t ↦ rw t
      | inr t ↦ rw t (keep-snoc_user reg.table row refl)
    ]

on_row-builtin :
    (id : ℕ) (rule : EndpointRule) (reg : EndpointRegistry) (row : Option EndpointRule)
    → builtin_rows (on_row id rule reg row).0 ≡ builtin_rows reg
unfolding builtin_rows reload
on_row-builtin id rule reg none = refl
on_row-builtin id rule reg (some r) = elim (Bool-cases r.user_defined) [
  | inr b ↦ rw b
  | inl u ↦ elim (Bool-cases (taken_by_other id rule reg.table)) [
    | inl t ↦ rw (u, t)
    | inr t ↦
        rw (u, t)
          (keep-map_user (write_rule id rule) reg.table (write_rule-builtin id rule)
            (write_rule-same id rule))
  ]
]

delete_rule-builtin :
    (id : ℕ) (reg : EndpointRegistry) → builtin_rows (delete_rule id reg).0 ≡ builtin_rows reg
unfolding delete_rule builtin_rows reload
delete_rule-builtin id reg = elim (Bool-cases (any (λ r. r.id == id && r.user_defined) reg.table)) [
  | inl t ↦ rw t (keep-drop_user id reg.table)
  | inr t ↦ rw t
]

-- Seeding looks at built-in rows only.
any-builtin :
    (rule : EndpointRule) (rows : List EndpointRule)
    → rule.user_defined ≡ false
    → any (same_endpoint rule) rows ≡ any (same_endpoint rule) (keep is_builtin rows)
unfolding any keep same_endpoint
any-builtin rule [] u = refl
any-builtin rule (r ∷ rows) u = elim (Bool-cases r.user_defined) [
  | inl d ↦ rw (u, d) (ground (arith, any-builtin rule rows u))
  | inr d ↦ rw (u, d) (ground (arith, any-builtin rule rows u))
]

reseed_if : EndpointRule → EndpointRule → EndpointRule
unfolding reseeded
reseed_if rule r = if same_endpoint rule r then reseeded rule r else r

keep-reseed :
    (rule : EndpointRule) (rows : List EndpointRule)
    → keep is_builtin (map (reseed_if rule) rows) ≡ map (reseed_if rule) (keep is_builtin rows)
unfolding keep reseed_if
keep-reseed rule [] = refl
keep-reseed rule (r ∷ rows) = ground (arith, keep-reseed rule rows)

-- Seeding again a rule that is there, as it was seeded.
seed_rule-again :
    (rule : EndpointRule) (reg : EndpointRegistry) (rows : List EndpointRule)
    → rule.user_defined ≡ false
    → builtin_rows reg ≡ rows
    → any (same_endpoint rule) rows ≡ true
    → map (reseed_if rule) rows ≡ rows
    → builtin_rows (seed_rule rule reg) ≡ rows
unfolding seed_rule builtin_rows reseed_if
seed_rule-again rule reg rows u e there same =
    let found : any (same_endpoint rule) reg.table ≡ true =
      any-builtin rule reg.table u ∙ ap (any (same_endpoint rule)) e ∙ there in
    rw found (keep-reseed rule reg.table ∙ ap (map (reseed_if rule)) e ∙ same)

abbrev pub shipped : List EndpointRule
shipped = numbered 1 builtin_rules

AllSeeded : List EndpointRule → Type 0
AllSeeded [] = Unit
AllSeeded (rule ∷ rules) =
    (rule.user_defined ≡ false)
    × (any (same_endpoint rule) shipped ≡ true)
    × (map (reseed_if rule) shipped ≡ shipped)
    × AllSeeded rules

all_seeded : AllSeeded builtin_rules
unfolding any same_endpoint reseed_if list_eqb AllSeeded
all_seeded = (
  refl,
  refl,
  refl,
  (
    refl,
    refl,
    refl,
    (
      refl,
      refl,
      refl,
      (refl, refl, refl, (refl, refl, refl, (refl, refl, refl, (refl, refl, refl, tt)))),
    ),
  ),
)

seed_rules-again :
    (rules : List EndpointRule) (reg : EndpointRegistry)
    → AllSeeded rules
    → builtin_rows reg ≡ shipped
    → builtin_rows (seed_rules rules reg) ≡ shipped
unfolding seed_rules AllSeeded
seed_rules-again [] reg h e = e
seed_rules-again (rule ∷ rules) reg (u, there, same, h) e =
    seed_rules-again rules (seed_rule rule reg) h (seed_rule-again rule reg shipped u e there same)

seeded_first :
    builtin_rows (seed_rules builtin_rules (record { table = []; next_id = 1; rules = [] }))
    ≡ shipped
unfolding builtin_rows seed_rules seed_rule any keep same_endpoint list_eqb
seeded_first = refl

builtin_rows-reload : (reg : EndpointRegistry) → builtin_rows (reload reg) ≡ builtin_rows reg
unfolding builtin_rows reload
builtin_rows-reload reg = refl

-- Whatever rules a user creates, changes and deletes, and however often the program starts, the
-- built-in rules of the table are those that it ships, enabled and unchanged.
pub builtin_rows-shipped : (calls : List Call) → builtin_rows (after calls) ≡ shipped
unfolding new_endpoint_registry update_rule
builtin_rows-shipped [] =
    builtin_rows-reload (seed_rules builtin_rules (record { table = []; next_id = 1; rules = [] }))
    ∙ seeded_first
builtin_rows-shipped (restarted ∷ calls) =
    builtin_rows-reload (seed_rules builtin_rules (after calls))
    ∙ seed_rules-again builtin_rules (after calls) all_seeded (builtin_rows-shipped calls)
builtin_rows-shipped (created rule ∷ calls) =
    create_rule-builtin rule (after calls) ∙ builtin_rows-shipped calls
builtin_rows-shipped (updated id rule ∷ calls) =
    on_row-builtin id rule (after calls) (first (λ r. r.id == id) (after calls).table)
    ∙ builtin_rows-shipped calls
builtin_rows-shipped (deleted id ∷ calls) =
    delete_rule-builtin id (after calls) ∙ builtin_rows-shipped calls
