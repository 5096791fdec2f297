-- ===== src/Go/Sort.antt =====
-- Sorting by a comparison that may hold neither way: the elements that it does not tell apart keep
-- their order, as in SQL's `ORDER BY` with the row id and in `sort.SliceStable`.
use greyproxy.Prelude.{
  ◌≡◌, Bool, true, false, List, [], ◌∷◌, ◌⊎◌, inl, inr, if◌then◌else◌, Bool-cases, In, All, Pairs,
  All-weaken, ◌↔◌,
}

module _ {A : Type 0} (before : A → A → Bool) where
  unfoldable pub insert : A → List A → List A
  insert x [] = x ∷ []
  insert x (y ∷ ys) = let rest = insert x ys in if before y x then y ∷ rest else x ∷ y ∷ ys

  unfoldable pub sort : List A → List A
  unfolding insert
  sort [] = []
  sort (x ∷ xs) = insert x (sort xs)

  -- A strict order of classes.
  pub record IsOrder : Type 0 where
    pub asym : (x y : A) → before x y ≡ true → before y x ≡ false
    pub between : (x y z : A) → before x z ≡ true → (before x y ≡ true) ⊎ (before y z ≡ true)

  abbrev pub Sorted : List A → Type 0
  Sorted = Pairs (λ x y. before y x ≡ false)

  All-insert : (P : A → Type 0) (x : A) (ys : List A) → P x → All P ys → All P (insert x ys)
  unfolding insert
  All-insert P x [] p h = (p, tt)
  All-insert P x (y ∷ ys) p h = elim (Bool-cases (before y x)) [
    | inl q ↦ rw q (h.0, All-insert P x ys p h.1)
    | inr q ↦ rw q (p, h)
  ]

  pub All-sort : (P : A → Type 0) (xs : List A) → All P xs → All P (sort xs)
  unfolding sort
  All-sort P [] h = tt
  All-sort P (x ∷ xs) h = All-insert P x (sort xs) h.0 (All-sort P xs h.1)

  In-insert : (a x : A) (ys : List A) → In a (insert x ys) ↔ In a (x ∷ ys)
  unfolding insert
  In-insert a x [] = (λ i. i, λ i. i)
  In-insert a x (y ∷ ys) = elim (Bool-cases (before y x)) [
    | inr q ↦ rw q (λ i. i, λ i. i)
    | inl q ↦ let ih = In-insert a x ys in rw q (later ih.0, earlier ih.1)
  ]
    where
      later : (In a (insert x ys) → In a (x ∷ ys)) → In a (y ∷ insert x ys) → In a (x ∷ y ∷ ys)
      later ih (inl e) = inr (inl e)
      later ih (inr i) = swap (ih i)
        where
          swap : In a (x ∷ ys) → In a (x ∷ y ∷ ys)
          swap (inl e) = inl e
          swap (inr j) = inr (inr j)

      earlier : (In a (x ∷ ys) → In a (insert x ys)) → In a (x ∷ y ∷ ys) → In a (y ∷ insert x ys)
      earlier ih (inl e) = inr (ih (inl e))
      earlier ih (inr (inl e)) = inl e
      earlier ih (inr (inr i)) = inr (ih (inr i))

  pub In-sort : (a : A) (xs : List A) → In a (sort xs) ↔ In a xs
  unfolding sort
  In-sort a [] = (λ i. i, λ i. i)
  In-sort a (x ∷ xs) =
      let (f, g) = In-insert a x (sort xs) in
      let (f', g') = In-sort a xs in
      (λ i. under (sort xs) xs f' (f i), λ i. g (under xs (sort xs) g' i))
    where
      under : (ys zs : List A) → (In a ys → In a zs) → In a (x ∷ ys) → In a (x ∷ zs)
      under ys zs k (inl e) = inl e
      under ys zs k (inr i) = inr (k i)

  insert-Sorted : (x : A) (ys : List A) → IsOrder → Sorted ys → Sorted (insert x ys)
  unfolding insert
  insert-Sorted x [] o h = (tt, tt)
  insert-Sorted x (y ∷ ys) o h = elim (Bool-cases (before y x)) [
    | inl q ↦
        rw q
          (All-insert (λ z. before z y ≡ false) x ys (o.asym y x q) h.0, insert-Sorted x ys o h.1)
    | inr q ↦ rw q ((q, All-weaken ys (λ z later. not_before z q later) h.0), h)
  ]
    where
      not_before : (z : A) → before y x ≡ false → before z y ≡ false → before z x ≡ false
      not_before z q later = elim (Bool-cases (before z x)) [
        | inr n ↦ n
        | inl t ↦ elim (o.between z y x t) [ inl a ↦ cc | inr b ↦ cc ]
      ]

  pub sort-Sorted : (xs : List A) → IsOrder → Sorted (sort xs)
  unfolding sort
  sort-Sorted [] o = tt
  sort-Sorted (x ∷ xs) o = insert-Sorted x (sort xs) o (sort-Sorted xs o)
