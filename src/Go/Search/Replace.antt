-- ===== src/Go/Search/Replace.antt =====
-- strings.ReplaceAll: from the left, each occurrence that does not overlap the one before.
use greyproxy.Prelude.{
  ℕ, zero, suc, ◌≡◌, refl, ap, true, false, none, some, [], ◌∷◌, ◌++◌, arith, length, drop,
  Bool-cases, Option-cases, inl, inr,
}
use greyproxy.Go.Strings.{Str, has_prefix}
use greyproxy.Go.Search.{cut, contains}

-- `skip` characters are left of the occurrence that was replaced last.
replace_from : ℕ → Str → Str → ℕ → Str → Str
unfolding has_prefix
replace_from o os new skip [] = []
replace_from o os new (suc skip) (c ∷ s) = replace_from o os new skip s
replace_from o os new zero (c ∷ s) = elim (has_prefix (c ∷ s) (o ∷ os)) [
  | true ↦ new ++ replace_from o os new (length os) s
  | false ↦ c ∷ replace_from o os new zero s
]

-- An empty text is found in front of each character and at the end.
between_all : Str → Str → Str
between_all new [] = new
between_all new (c ∷ s) = new ++ c ∷ between_all new s

unfoldable pub replace_all : Str → Str → Str → Str
unfolding replace_from between_all
replace_all s [] new = between_all new s
replace_all s (o ∷ os) new = replace_from o os new zero s

replace_from-skip :
    (o : ℕ) (os new : Str) (k : ℕ) (s : Str)
    → replace_from o os new k s ≡ replace_from o os new zero (drop k s)
unfolding replace_from
replace_from-skip o os new zero s = refl
replace_from-skip o os new (suc k) [] = refl
replace_from-skip o os new (suc k) (c ∷ s) = replace_from-skip o os new k s

replace_from-cut :
    (o : ℕ) (os new s a b : Str)
    → cut s (o ∷ os) ≡ some (a, b)
    → replace_from o os new zero s ≡ a ++ (new ++ replace_from o os new zero b)
unfolding replace_from cut
replace_from-cut o os new [] a b h = cc
replace_from-cut o os new (c ∷ s) a b h = elim (Bool-cases (has_prefix (c ∷ s) (o ∷ os))) [
  | inl q ↦
      let e : some ([], drop (length os) s) ≡ some (a, b) = rw q at h in
      rw (q, replace_from) (ground (arith, e, replace_from-skip o os new (length os) s))
  | inr q ↦ elim (Option-cases (cut s (o ∷ os))) [
    | inl n ↦ cc (rw (q, n) at h)
    | inr ((a', b'), e) ↦
        let k : some (c ∷ a', b') ≡ some (a, b) = rw (q, e) at h in
        rw (q, replace_from) (ground (arith, k, replace_from-cut o os new s a' b' e))
  ]
]

replace_from-none :
    (o : ℕ) (os new s : Str) → cut s (o ∷ os) ≡ none → replace_from o os new zero s ≡ s
unfolding replace_from cut
replace_from-none o os new [] h = refl
replace_from-none o os new (c ∷ s) h = elim (Bool-cases (has_prefix (c ∷ s) (o ∷ os))) [
  | inl q ↦ cc (rw q at h)
  | inr q ↦ elim (Option-cases (cut s (o ∷ os))) [
    | inl n ↦ rw (q, replace_from) (ap (λ r. c ∷ r) (replace_from-none o os new s n))
    | inr (ab, e) ↦ cc (rw (q, e) at h)
  ]
]

-- The first occurrence is replaced, and the text before it stays.
pub replace_all-cut :
    (s old new a b : Str)
    → cut s old ≡ some (a, b)
    → (old ≡ [] → ⊥)
    → replace_all s old new ≡ a ++ (new ++ replace_all b old new)
unfolding replace_all
replace_all-cut s [] new a b h n = absurd (n refl)
replace_all-cut s (o ∷ os) new a b h n = replace_from-cut o os new s a b h

-- A text in which there is no occurrence is left alone.
pub replace_all-none : (s old new : Str) → contains s old ≡ false → replace_all s old new ≡ s
unfolding replace_all contains cut has_prefix
replace_all-none [] [] new h = cc
replace_all-none (c ∷ s) [] new h = cc
replace_all-none s (o ∷ os) new h = elim (Option-cases (cut s (o ∷ os))) [
  | inl n ↦ replace_from-none o os new s n
  | inr (ab, e) ↦ cc (rw e at h)
]
