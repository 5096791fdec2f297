-- ===== src/EndpointRegistry/Best.antt =====
-- Match against the table: after any calls the cache is up to date, and the best rule is taken.
use greyproxy.Prelude.{
  ℕ, suc, String, ◌≡◌, refl, ap, ◌∙◌, Bool, true, false, not, ◌&&◌, Option, none, some, List, [],
  ◌∷◌, ◌++◌, ◌==◌, nat_eq, arith, if◌then◌else◌, ◌⊎◌, inl, inr, Bool-cases, Option-cases, In, All,
  any, keep, first, In-keep, keep-In, first-In, first-none, int_eq, All-In, All-weaken, ◌≤◌,
  ==_refl, ◌↔◌,
}
use greyproxy.Go.Strings.{Str}
use greyproxy.Go.Sort.{sort, IsOrder, Sorted, sort-Sorted, In-sort}
use greyproxy.EndpointRegistry.{EndpointRule, match_endpoint, decoder_of, rule_covers, extract_path}
use greyproxy.EndpointRegistry.Table.{
  EndpointRegistry, lt_priority, seed_rules, builtin_rules, same_endpoint, err, taken,
  rule_not_found_or_built_in, loads_before, enabled_rows, reload, new_endpoint_registry,
  create_rule, update_rule, delete_rule, on_row, taken_by_other,
}

pub data Call : Type 0 where
  restarted : Call
  created : EndpointRule → Call
  updated : ℕ → EndpointRule → Call
  deleted : ℕ → Call

-- The registry after the calls, the last one in front, from an empty table.
abbrev pub after : List Call → EndpointRegistry
after [] = new_endpoint_registry (record { table = []; next_id = 1; rules = [] })
after (restarted ∷ calls) = new_endpoint_registry (after calls)
after (created rule ∷ calls) = (create_rule rule (after calls)).0
after (updated id rule ∷ calls) = (update_rule id rule (after calls)).0
after (deleted id ∷ calls) = (delete_rule id (after calls)).0

-- The cache is what reload would read.
pub IsLoaded : EndpointRegistry → Type 0
IsLoaded reg = reg.rules ≡ sort loads_before (enabled_rows reg.table)

reload-IsLoaded : (reg : EndpointRegistry) → IsLoaded (reload reg)
unfolding reload IsLoaded
reload-IsLoaded reg = refl

-- Whichever branch a call takes.
if-IsLoaded {ℓ} :
    {A : Type ℓ} (b : Bool) (p q : EndpointRegistry × A)
    → IsLoaded p.0
    → IsLoaded q.0
    → IsLoaded (if b then p else q).0
if-IsLoaded true p q hp hq = hp
if-IsLoaded false p q hp hq = hq

on_row-IsLoaded :
    (id : ℕ) (rule : EndpointRule) (reg : EndpointRegistry) (row : Option EndpointRule)
    → IsLoaded reg
    → IsLoaded (on_row id rule reg row).0
on_row-IsLoaded id rule reg none h = h
on_row-IsLoaded id rule reg (some r) h =
    if-IsLoaded (not r.user_defined) _ _ h
      (if-IsLoaded (taken_by_other id rule reg.table) _ _ h (reload-IsLoaded _))

new-IsLoaded : (reg : EndpointRegistry) → IsLoaded (new_endpoint_registry reg)
unfolding new_endpoint_registry
new-IsLoaded reg = reload-IsLoaded (seed_rules builtin_rules reg)

create_rule-IsLoaded :
    (rule : EndpointRule) (reg : EndpointRegistry)
    → IsLoaded reg
    → IsLoaded (create_rule rule reg).0
unfolding create_rule
create_rule-IsLoaded rule reg h =
    let row = record rule { id = reg.next_id; user_defined = true } in
    if-IsLoaded (any (same_endpoint row) reg.table) (reg, err taken) _ h
      (reload-IsLoaded (record reg { table = reg.table ++ row ∷ []; next_id = suc reg.next_id }))

update_rule-IsLoaded :
    (id : ℕ) (rule : EndpointRule) (reg : EndpointRegistry)
    → IsLoaded reg
    → IsLoaded (update_rule id rule reg).0
unfolding update_rule
update_rule-IsLoaded id rule reg h =
    on_row-IsLoaded id rule reg (first (λ r. r.id == id) reg.table) h

delete_rule-IsLoaded :
    (id : ℕ) (reg : EndpointRegistry) → IsLoaded reg → IsLoaded (delete_rule id reg).0
unfolding delete_rule
delete_rule-IsLoaded id reg h =
    if-IsLoaded (any (λ r. r.id == id && r.user_defined) reg.table) _
      (reg, err rule_not_found_or_built_in)
      (reload-IsLoaded
        (record reg { table = keep (λ r. not (r.id == id && r.user_defined)) reg.table }))
      h

pub after-IsLoaded : (calls : List Call) → IsLoaded (after calls)
after-IsLoaded [] = new-IsLoaded (record { table = []; next_id = 1; rules = [] })
after-IsLoaded (restarted ∷ calls) = new-IsLoaded (after calls)
after-IsLoaded (created rule ∷ calls) =
    create_rule-IsLoaded rule (after calls) (after-IsLoaded calls)
after-IsLoaded (updated id rule ∷ calls) =
    update_rule-IsLoaded id rule (after calls) (after-IsLoaded calls)
after-IsLoaded (deleted id ∷ calls) = delete_rule-IsLoaded id (after calls) (after-IsLoaded calls)

loads_before-IsOrder : IsOrder loads_before
unfolding loads_before lt_priority
loads_before-IsOrder = record {
  asym = λ x y h. ground arith;
  between = λ x y z h. elim (Bool-cases (loads_before x y)) [
    | inl t ↦ inl t
    | inr n ↦ inr (ground arith)
  ];
}

-- In a sorted list the first that passes a test has none before it in the order.
first-Sorted :
    (p : EndpointRule → Bool) (xs : List EndpointRule) {a : EndpointRule}
    → Sorted loads_before xs
    → first p xs ≡ some a
    → All (λ q. (p q ≡ true) → loads_before q a ≡ false) xs
unfolding first
first-Sorted p [] s h = tt
first-Sorted p (x ∷ xs) {a} s h = elim (Bool-cases (p x)) [
  | inl t ↦
      let e : x ≡ a = cc (rw t at h) in
      (λ _. rw (← e) (before_itself x), All-weaken xs (λ q n _. rw (← e) n) s.0)
  | inr n ↦ (λ t. cc, first-Sorted p xs s.1 (rw n at h))
]
  where
    before_itself : (x : EndpointRule) → loads_before x x ≡ false
    before_itself x = elim (Bool-cases (loads_before x x)) [
      | inl t ↦ loads_before-IsOrder.asym x x t
      | inr n ↦ n
    ]

In-enabled :
    (r : EndpointRule) (table : List EndpointRule)
    → In r (sort loads_before (enabled_rows table)) ↔ (In r table × (r.enabled ≡ true))
unfolding enabled_rows
In-enabled r table =
    let (f, g) = In-sort loads_before r (keep (λ q. q.enabled) table) in
    (λ i. keep-In _ r table (f i), λ (i, e). g (In-keep _ r table i e))

-- None that comes behind has a higher priority, or the same and a lower id.
abbrev pub IsBehind : EndpointRule → EndpointRule → Type 0
IsBehind r q = (lt_priority r.priority q.priority ≡ false) × (q.priority ≡ r.priority → r.id ≤ q.id)

not_before-IsBehind : (q r : EndpointRule) → loads_before q r ≡ false → IsBehind r q
unfolding loads_before
not_before-IsBehind q r h = (
  ground arith,
  λ e.
      let same : (q.priority == r.priority) ≡ true = rw (e, ==_refl r.priority) in
      ground (arith, h, same),
)

-- Whatever the calls, Match returns no decoder if no enabled rule of the table covers the request,
-- and otherwise that of an enabled rule that covers it and before which no other such rule comes:
-- none has a higher priority, or the same and a lower id.
pub match_endpoint-IsBest :
    (url : Str) (method : String) (host : Str) (calls : List Call)
    → let covers = rule_covers (extract_path url) method host in
      let table = (after calls).table in
      let found = match_endpoint url method host (after calls).rules in
      ((found ≡ "") × ((r : EndpointRule) → In r table → r.enabled ≡ true → covers r ≡ false))
      ⊎ ((r : EndpointRule) × In r table
          × (r.enabled ≡ true)
          × (covers r ≡ true)
          × (found ≡ r.decoder_name)
          × ((q : EndpointRule) → In q table → q.enabled ≡ true → covers q ≡ true → IsBehind r q))
unfolding match_endpoint IsLoaded
match_endpoint-IsBest url method host calls =
    let covers = rule_covers (extract_path url) method host in
    let table = (after calls).table in
    let cache = sort loads_before (enabled_rows table) in
    let listed =
      λ (q : EndpointRule) (i : In q table) (e : q.enabled ≡ true). (In-enabled q table).1 (i, e) in
    let match_cached = λ (o : Option EndpointRule) (e : first covers cache ≡ o).
      ap (first covers) (loaded calls) ∙ e in
    elim (Option-cases (first covers cache)) [
      | inl n ↦
          inl (
            ap decoder_of (match_cached none n),
            λ q i e. first-none covers cache n q (listed q i e),
          )
      | inr (r, e) ↦
          let (i, c) = first-In covers cache e in
          let (j, on) = (In-enabled r table).0 i in
          inr (
            r,
            j,
            on,
            c,
            ap decoder_of (match_cached (some r) e),
            λ q k f t. not_before-IsBehind q r (
                All-In _ cache
                  (first-Sorted covers cache (sort-Sorted loads_before _ loads_before-IsOrder) e)
                  (listed q k f) t),
          )
    ]
  where
    loaded :
        (calls : List Call)
        → (after calls).rules ≡ sort loads_before (enabled_rows (after calls).table)
    loaded calls = after-IsLoaded calls
