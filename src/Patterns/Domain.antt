-- ===== src/Patterns/Domain.antt =====
-- The domain wildcards of MatchesDestination, read as statements about the host.
use greyproxy.Prelude.{
  ◌≡◌, ◌⊎◌, inl, inr, ◌↔◌, ◌||◌, true, false, [], ◌∷◌, ◌++◌, ◌==◌, nat_eq, list_eq, list_eqb,
  list_eqb_iff, arith, take, ◌-◌, length, refl, Bool,
}
use greyproxy.Go.Strings.{
  Str, codes, has_char, has_prefix, to_lower, has_suffix, has_suffix-append, has_suffix-take,
}
use greyproxy.Patterns.{matches_destination, matches_lowered}

has_char-to_lower : (s : Str) → has_char b'/' (to_lower s) ≡ has_char b'/' s
unfolding has_char to_lower
has_char-to_lower [] = refl
has_char-to_lower (c ∷ s) = ground (arith, has_char-to_lower s)

-- The host lies below the domain: something, a dot, and the domain.
abbrev pub Below : Str → Str → Type 0
Below host base = (label : Str) × (host ≡ label ++ b'.' ∷ base)

suffix_iff : (s base : Str) → (has_suffix s (b'.' ∷ base) ≡ true) ↔ Below s base
suffix_iff s base = (
  λ h. (take (length s - length (b'.' ∷ base)) s, has_suffix-take s (b'.' ∷ base) h),
  λ (label, e). rw e (has_suffix-append label (b'.' ∷ base)),
)

or_iff : {P Q : Type 0} (a b : Bool) → (a ≡ true) ↔ P → (b ≡ true) ↔ Q → ((a || b) ≡ true) ↔ (P ⊎ Q)
or_iff true b p q = (λ h. inl (p.0 h), λ h. refl)
or_iff false b p q = (λ h. inr (q.0 h), λ h. elim h [ inl x ↦ cc (p.1 x) | inr y ↦ q.1 y ])

module _ (host base : Str) (plain : has_char b'/' base ≡ false) where
  double_star :
      matches_destination host (codes "**." ++ base)
      ≡ (to_lower host == to_lower base || has_suffix (to_lower host) (b'.' ∷ to_lower base))
  unfolding matches_destination matches_lowered to_lower list_eqb has_char has_prefix
  double_star = ground (arith, has_char-to_lower base)

  single_star :
      matches_destination host (codes "*." ++ base)
      ≡ has_suffix (to_lower host) (b'.' ∷ to_lower base)
  unfolding matches_destination matches_lowered to_lower list_eqb has_char has_prefix
  single_star = ground (arith, has_char-to_lower base)

  double_star_iff :
      (matches_destination host (codes "**." ++ base) ≡ true)
      ↔ ((to_lower host ≡ to_lower base) ⊎ Below (to_lower host) (to_lower base))
  double_star_iff =
      rw double_star
        (or_iff _ _ (list_eqb_iff (to_lower host) (to_lower base)) (suffix_iff _ (to_lower base)))

  pub single_star_iff :
      (matches_destination host (codes "*." ++ base) ≡ true) ↔ Below (to_lower host) (to_lower base)
  single_star_iff = rw single_star (suffix_iff (to_lower host) (to_lower base))

  pub wildcards_iff :
      ((matches_destination host (codes "**." ++ base) ≡ true)
        ↔ ((to_lower host ≡ to_lower base) ⊎ Below (to_lower host) (to_lower base)))
      × ((matches_destination host (codes "*." ++ base) ≡ true)
          ↔ Below (to_lower host) (to_lower base))
  wildcards_iff = (double_star_iff, single_star_iff)

-- A host with no slash that does not begin as a wildcard does is matched by itself as the pattern.
pub exact_self :
    (host : Str)
    → has_char b'/' host ≡ false
    → has_prefix host (b'*' ∷ []) ≡ false
    → matches_destination host host ≡ true
unfolding matches_destination matches_lowered to_lower has_char has_prefix list_eqb
exact_self [] plain h = refl
exact_self (c ∷ host) plain h =
    ground (
      arith,
      has_char-to_lower (c ∷ host),
      list_eqb_iff (to_lower (c ∷ host)) (to_lower (c ∷ host)),
    )
