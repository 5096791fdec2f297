-- ===== src/Store/Rules/Creation.antt =====
-- What CreateRule returns.
use greyproxy.Prelude.{
  ℕ, suc, ◌≡◌, refl, ◌∙◌, Bool, true, ◌&&◌, Option, none, some, [], ◌∷◌, ◌++◌, arith, ◌==◌, nat_eq,
  All-weaken, In, any, first, Bool-cases, inl, inr, ==_refl, any-In, In-first, first-In, keep-In,
  In-append_right, first-append_none, ℤ, pos, negsuc, list_eq, string_eq, zero,
}
use greyproxy.Store.{Rule, Db}
use greyproxy.Store.Rules.{
  Result, ok, err, RuleCreateInput, same_key, is_checked, is_live, insert_rule, drop_expired,
  create_rule, new_row, get_rule, find_existing_rule, expiry,
}
use greyproxy.Store.Rules.Table.{IsTable, drop_expired-IsTable}

-- A rule of the table that has not expired and has the key of the row `r`.
pub record Stands (now : ℕ) (r : Rule) (db : Db) (q : Rule) : Type 0 where
  pub present : In q db.rules
  pub live : is_live now q ≡ true
  pub key : same_key r.container_pattern r.destination_pattern r.port_pattern r.action q ≡ true

-- The call returned a rule, and `P` holds of the database and the rule.
abbrev pub Returns : (Db → Rule → Type 0) → Db × Result (Option Rule) → Type 0
Returns P (db, ok (some r)) = P db r
Returns P (db, ok none) = ⊥
Returns P (db, err e) = ⊥

expiry-live :
    (now : ℕ) (n : Option ℤ) (r : Rule) → r.expires_at ≡ expiry now n → is_live now r ≡ true
unfolding is_live
expiry-live now none r e = rw e
expiry-live now (some (pos zero)) r e = rw e
expiry-live now (some (pos (suc n))) r e = rw e (ground arith)
expiry-live now (some (negsuc n)) r e = rw e

insert_rule-new :
    (r : Rule) (db : Db)
    → IsTable db
    → get_rule db.next_rule (db.rules ++ record r { id = db.next_rule } ∷ [])
      ≡ some (record r { id = db.next_rule })
unfolding get_rule first
insert_rule-new r db t =
    first-append_none (λ q. q.id == db.next_rule) db.rules _
      (All-weaken db.rules (λ q row. ground (arith, row.handed_out)) t.rows)
    ∙ ground arith

-- The row that stands in the way of an insertion is live: the expired ones were dropped.
blocked-live :
    (now : ℕ) (r : Rule) (db : Db)
    → any
        (same_key r.container_pattern r.destination_pattern r.port_pattern r.action)
        (drop_expired now r db).rules
      ≡ true
    → (q : Rule) × (find_existing_rule now r.container_pattern r.destination_pattern r.port_pattern
          r.action
          (drop_expired now r db)
        ≡ some q)
      × Stands now r (drop_expired now r db) q
unfolding drop_expired find_existing_rule
blocked-live now r db h =
    let (q, i, k) = any-In _ (drop_expired now r db).rules h in
    let (_, v) = keep-In _ q db.rules i in
    let (b, e) = In-first wanted (drop_expired now r db).rules i (rw k (ground arith)) in
    let (j, w) = first-In wanted (drop_expired now r db).rules e in
    (b, e, record { present = j; live = ground arith; key = ground arith })
  where
    wanted : Rule → Bool
    wanted q =
        same_key r.container_pattern r.destination_pattern r.port_pattern r.action q
        && is_live now q

same_key_self :
    (r : Rule) → same_key r.container_pattern r.destination_pattern r.port_pattern r.action r ≡ true
unfolding same_key
same_key_self r = simp ==_refl

new_row-Stands :
    (now : ℕ) (input : RuleCreateInput) (db db' : Db)
    → let r = record (new_row now input) { id = db.next_rule } in
      db'.rules ≡ db.rules ++ r ∷ [] → Stands now (new_row now input) db' r
unfolding new_row same_key
new_row-Stands now input db db' e = record {
  present = rw e (In-append_right db.rules _ []);
  live = expiry-live now input.expires_in_seconds _ refl;
  key = same_key_self (new_row now input);
}

pub create_rule-Stands :
    (now : ℕ) (input : RuleCreateInput) (db : Db)
    → IsTable db
    → is_checked (new_row now input).rule_type (new_row now input).action ≡ true
    → Returns (Stands now (new_row now input)) (create_rule now input db)
unfolding create_rule insert_rule
create_rule-Stands now input db t c =
    elim (Bool-cases
      (any (same_key r.container_pattern r.destination_pattern r.port_pattern r.action) d.rules)) [
        | inl b ↦ let (q, e, s) = blocked-live now r db b in rw (c, b, e) s
        | inr f ↦
            rw (c, f, insert_rule-new r d (drop_expired-IsTable now r db t))
              (new_row-Stands now input d _ refl)
      ]
  where
    r : Rule
    r = new_row now input

    d : Db
    d = drop_expired now r db
