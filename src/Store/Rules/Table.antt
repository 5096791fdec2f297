-- ===== src/Store/Rules/Table.antt =====
-- The constraints of the rules table hold after every operation on it.
use greyproxy.Prelude.{
  ℕ, suc, ◌<◌, String, ◌≡◌, refl, true, false, not, ◌&&◌, List, [], ◌∷◌, ◌++◌, map, arith, ◌==◌,
  nat_eq, list_eq, string_eq, subst, All, Pairs, All-append, All-keep, All-map, All-weaken, All-zip,
  Pairs-keep, Pairs-snoc, any-false, any, if◌then◌else◌, Bool-cases, inl, inr, ==_comm, ap₂,
  Option-cases,
}
use greyproxy.Go.Strings.{Str}
use greyproxy.Store.{Rule, Db}
use greyproxy.Store.Rules.{
  Result, ok, err, RuleCreateInput, RuleUpdateInput, same_key, is_checked, insert_rule,
  drop_expired, create_rule, update_rule, delete_rule, write_row, replace, has_sets, updated,
  new_row, on_insert, taken_by_other, get_rule,
}

-- Two rows with different ids and different keys, the earlier row with the smaller id.
pub record Apart (q r : Rule) : Type 0 where
  pub ids : q.id < r.id
  pub keys : same_key r.container_pattern r.destination_pattern r.port_pattern r.action q ≡ false

-- The CHECK constraints, and an id that was handed out.
pub record IsRow (next : ℕ) (r : Rule) : Type 0 where
  pub handed_out : r.id < next
  pub checked : is_checked r.rule_type r.action ≡ true

pub record IsTable (db : Db) : Type 0 where
  pub rows : All (IsRow db.next_rule) db.rules
  pub apart : Pairs Apart db.rules

pub appended-IsTable :
    (r : Rule) (db : Db)
    → IsTable db
    → is_checked r.rule_type r.action ≡ true
    → any (same_key r.container_pattern r.destination_pattern r.port_pattern r.action) db.rules
      ≡ false
    → IsTable (record db {
      rules = db.rules ++ record r { id = db.next_rule } ∷ [];
      next_rule = suc db.next_rule;
    })
appended-IsTable r db t checked free = record {
  rows =
      All-append (IsRow (suc db.next_rule)) db.rules _
        (All-weaken db.rules
          (λ q row. record { handed_out = omega (arith, row.handed_out); checked = row.checked })
          t.rows)
        (record { handed_out = omega arith; checked = checked }, tt);
  apart = Pairs-snoc Apart db.rules _ t.apart (
      All-zip db.rules (λ q row other. record { ids = row.handed_out; keys = other }) t.rows
        (any-false _ db.rules free));
}

insert_rule-IsTable :
    (r : Rule) (db db' : Db) → IsTable db → insert_rule r db ≡ ok db' → IsTable db'
unfolding insert_rule
insert_rule-IsTable r db db' t h = elim (Bool-cases (is_checked r.rule_type r.action)) [
  | inr q ↦ ground arith
  | inl q ↦
      elim (Bool-cases (
        any (same_key r.container_pattern r.destination_pattern r.port_pattern r.action)
          db.rules)) [
            | inl p ↦ ground arith
            | inr p ↦ subst IsTable (ground arith) (appended-IsTable r db t q p)
          ]
]

pub drop_expired-IsTable :
    (now : ℕ) (r : Rule) (db : Db) → IsTable db → IsTable (drop_expired now r db)
unfolding drop_expired
drop_expired-IsTable now r db t = record {
  rows = All-keep (IsRow db.next_rule) _ db.rules t.rows;
  apart = Pairs-keep Apart _ db.rules t.apart;
}

-- Whatever the input, the constraints of the table hold after a call of CreateRule, be it one that
-- fails.
pub create_rule-IsTable :
    (now : ℕ) (input : RuleCreateInput) (db : Db)
    → IsTable db
    → IsTable (create_rule now input db).0
unfolding create_rule new_row
create_rule-IsTable now input db t = go (insert_rule r (drop_expired now r db)) refl
  where
    r : Rule
    r = new_row now input

    t' : IsTable (drop_expired now r db)
    t' = drop_expired-IsTable now r db t

    go :
        (res : Result Db)
        → insert_rule r (drop_expired now r db) ≡ res
        → IsTable (on_insert now r (drop_expired now r db) res).0
    go (ok db') e = insert_rule-IsTable r (drop_expired now r db) db' t' e
    go (err x) e = t'

-- Two rows hold one key whichever of them is asked.
same_key_sym :
    (q r : Rule)
    → same_key r.container_pattern r.destination_pattern r.port_pattern r.action q
      ≡ same_key q.container_pattern q.destination_pattern q.port_pattern q.action r
unfolding same_key
same_key_sym q r =
    ap₂ ◌&&◌
      (ap₂ ◌&&◌ (ap₂ ◌&&◌ (==_comm {A = Str} _ _) (==_comm {A = Str} _ _)) (==_comm {A = Str} _ _))
      (==_comm {A = String} _ _)

-- The row that an update leaves in the place of `q`.
abbrev swap : Rule → Rule → Rule
swap r q = if q.id == r.id then r else q

abbrev Free : Rule → Rule → Type 0
Free r q =
    (not (q.id == r.id)
      && same_key r.container_pattern r.destination_pattern r.port_pattern r.action q)
    ≡ false

swap-Apart : (r x y : Rule) → Free r x → Free r y → Apart x y → Apart (swap r x) (swap r y)
swap-Apart r x y fx fy a = elim (Bool-cases (x.id == r.id)) [
  | inl p ↦ elim (Bool-cases (y.id == r.id)) [
    | inl q ↦ absurd (ground (arith, a.ids))
    | inr q ↦
        rw (p, q) (record { ids = ground (arith, a.ids); keys = ground (arith, same_key_sym y r) })
  ]
  | inr p ↦ elim (Bool-cases (y.id == r.id)) [
    | inl q ↦ rw (p, q) (record { ids = ground (arith, a.ids); keys = ground arith })
    | inr q ↦ rw (p, q) a
  ]
]

All-swap :
    (r x : Rule) (ys : List Rule)
    → Free r x
    → All (Free r) ys
    → All (Apart x) ys
    → All (Apart (swap r x)) (map (swap r) ys)
All-swap r x [] fx fs h = tt
All-swap r x (y ∷ ys) fx fs h = (swap-Apart r x y fx fs.0 h.0, All-swap r x ys fx fs.1 h.1)

Pairs-swap :
    (r : Rule) (xs : List Rule) → All (Free r) xs → Pairs Apart xs → Pairs Apart (map (swap r) xs)
Pairs-swap r [] fs h = tt
Pairs-swap r (x ∷ xs) fs h = (All-swap r x xs fs.0 fs.1 h.0, Pairs-swap r xs fs.1 h.1)

swap-IsRow :
    (next : ℕ) (r q : Rule)
    → is_checked r.rule_type r.action ≡ true
    → IsRow next q
    → IsRow next (swap r q)
swap-IsRow next r q c row = elim (Bool-cases (q.id == r.id)) [
  | inl p ↦ rw p (record { handed_out = ground (arith, row.handed_out); checked = c })
  | inr p ↦ rw p row
]

write_row-IsTable : (r : Rule) (db : Db) → IsTable db → IsTable (write_row r db).0
unfolding write_row
write_row-IsTable r db t = elim (Bool-cases (is_checked r.rule_type r.action)) [
  | inr q ↦ rw q t
  | inl q ↦ elim (Bool-cases (taken_by_other r db.rules)) [
    | inl p ↦ rw (q, p) t
    | inr p ↦ rw (q, p) (replaced q p)
  ]
]
  where
    replaced :
        is_checked r.rule_type r.action ≡ true
        → taken_by_other r db.rules ≡ false
        → IsTable (record db { rules = replace r db.rules })
    replaced q p = record {
      rows =
          All-map (IsRow db.next_rule) (swap r) db.rules (λ x. swap-IsRow db.next_rule r x q)
            t.rows;
      apart = Pairs-swap r db.rules (any-false _ db.rules p) t.apart;
    }

-- Whatever the input, the constraints of the table hold after a call of UpdateRule, be it one that
-- fails.
pub update_rule-IsTable :
    (id : ℕ) (input : RuleUpdateInput) (db : Db) → IsTable db → IsTable (update_rule id input db).0
unfolding update_rule
update_rule-IsTable id input db t = elim (Bool-cases (has_sets input)) [
  | inr q ↦ rw q t
  | inl q ↦ elim (Option-cases (get_rule id db.rules)) [
    | inl e ↦ rw (q, e) t
    | inr (r, e) ↦ rw (q, e) (write_row-IsTable (updated input r) db t)
  ]
]

pub delete_rule-IsTable : (id : ℕ) (db : Db) → IsTable db → IsTable (delete_rule id db).0
unfolding delete_rule
delete_rule-IsTable id db t = record {
  rows = All-keep (IsRow db.next_rule) _ db.rules t.rows;
  apart = Pairs-keep Apart _ db.rules t.apart;
}
