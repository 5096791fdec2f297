-- ===== src/Store/Matching/Order.antt =====
-- The order of rules is an order of numbers, as long as each action is `allow` or `deny`.
use greyproxy.Prelude.{
  ℕ, ◌+◌, ◌*◌, ◌≤◌, ◌≡◌, Bool, false, not, nat_eq, ◌⊎◌, inl, inr, arith, ltb, ◌==◌, string_eq,
  if◌then◌else◌,
}
use text.Mathlib.TextEquality.{eq_iff}
use greyproxy.Patterns.{calculate_specificity, pattern_score}
use greyproxy.Store.{Rule}
use greyproxy.Store.Matching.{goes_before, specificity, rule_source_priority}

abbrev pub HasAction : Rule → Type 0
HasAction r = (r.action ≡ "allow") ⊎ (r.action ≡ "deny")

-- Specificity is at most 221, and an action adds at most 1.
pub rank : Rule → ℕ
rank r = 1000 * rule_source_priority r + 2 * specificity r + (if r.action == "deny" then 1 else 0)

specificity-le : (r : Rule) → specificity r ≤ 221
unfolding specificity calculate_specificity pattern_score
specificity-le r = ground arith

abbrev deny_flag : Rule → ℕ
deny_flag r = if r.action == "deny" then 1 else 0

deny_flag-le : (r : Rule) → deny_flag r ≤ 1
deny_flag-le r = ground arith

-- The comparison by fields is one of weighted sums.
lexicographic :
    (p p' s s' d d' : ℕ) (b : Bool)
    → s ≤ 221
    → s' ≤ 221
    → d ≤ 1
    → d' ≤ 1
    → b ≡ ltb d' d
    → (if not (p == p') then ltb p' p else if not (s == s') then ltb s' s else b)
      ≡ ltb (1000 * p' + 2 * s' + d') (1000 * p + 2 * s + d)
lexicographic p p' s s' d d' b hs hs' hd hd' e = rw e (ground arith)

deny_first :
    (q r : Rule)
    → HasAction q
    → HasAction r
    → (if not (q.action == r.action) then q.action == "deny" else false)
      ≡ ltb (deny_flag r) (deny_flag q)
deny_first q r (inl e) (inl e') = simp (e, e') (ground (arith, eq_iff "allow" "deny"))
deny_first q r (inl e) (inr e') =
    simp (e, e') (ground (arith, eq_iff "allow" "deny", eq_iff "deny" "deny"))
deny_first q r (inr e) (inl e') =
    simp (e, e')
      (ground (arith, eq_iff "allow" "deny", eq_iff "deny" "deny", eq_iff "deny" "allow"))
deny_first q r (inr e) (inr e') = simp (e, e') (ground (arith, eq_iff "deny" "deny"))

-- One rule goes before another exactly if its rank is higher.
pub goes_before-eq-ltb :
    (q r : Rule) → HasAction q → HasAction r → goes_before q r ≡ ltb (rank r) (rank q)
unfolding goes_before rank
goes_before-eq-ltb q r hq hr =
    lexicographic (rule_source_priority q) (rule_source_priority r) (specificity q) (specificity r)
      (deny_flag q) (deny_flag r) _ (specificity-le q) (specificity-le r) (deny_flag-le q)
      (deny_flag-le r) (deny_first q r hq hr)

deny_flag-action :
    (q r : Rule) → HasAction q → HasAction r → deny_flag q ≡ deny_flag r → q.action ≡ r.action
deny_flag-action q r hq hr e = ground (
  arith,
  eq_iff "allow" "deny",
  eq_iff "deny" "deny",
  eq_iff q.action "deny",
  eq_iff r.action "deny",
)

-- Rules of one rank have one action.
pub same_rank : (q r : Rule) → HasAction q → HasAction r → rank q ≡ rank r → q.action ≡ r.action
unfolding rank
same_rank q r hq hr e = deny_flag-action q r hq hr (omega (arith, deny_flag-le q, deny_flag-le r))
