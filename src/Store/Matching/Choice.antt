-- ===== src/Store/Matching/Choice.antt =====
-- The rule that FindMatchingRule returns.
use greyproxy.Prelude.{
  ℕ, ◌≤◌, ◌≡◌, ◌↔◌, refl, true, false, ◌⊎◌, inl, inr, none, some, List, [], ◌∷◌, arith, ℤ, head?,
  In, All, All-In, All-keep, In-keep, keep-In, Bool-cases, Option-cases, Option, All-weaken, subst,
}
use greyproxy.Go.Strings.{Str}
use greyproxy.Store.{Rule, Db}
use greyproxy.Store.Matching.{
  applicable, find_matching_rule, goes_before, insert, insert_all, is_visible, rule_matches,
  sort_slice,
}
use greyproxy.Store.Matching.Order.{HasAction, same_rank, goes_before-eq-ltb, rank}

-- No rule of the list ranks above its head.
abbrev HeadMax : List Rule → Type 0
HeadMax [] = Unit
HeadMax (q ∷ qs) = All (λ r. rank r ≤ rank q) qs

module _ (P : Rule → Type 0) where
  All-insert : (r : Rule) (qs : List Rule) → P r → All P qs → All P (insert r qs)
  unfolding insert
  All-insert r [] h hs = (h, tt)
  All-insert r (q ∷ qs) h hs = elim (Bool-cases (goes_before r q)) [
    | inl b ↦ rw b (h, hs)
    | inr b ↦ rw b (hs.0, All-insert r qs h hs.1)
  ]

  All-insert_all : (rs qs : List Rule) → All P rs → All P qs → All P (insert_all qs rs)
  unfolding insert_all
  All-insert_all [] qs h hs = hs
  All-insert_all (r ∷ rs) qs h hs = All-insert_all rs (insert r qs) h.1 (All-insert r qs h.0 hs)

insert-In : (r a : Rule) (qs : List Rule) → (a ≡ r) ⊎ In a qs → In a (insert r qs)
unfolding insert
insert-In r a [] h = h
insert-In r a (q ∷ qs) h = elim (Bool-cases (goes_before r q)) [
  | inl b ↦ rw b h
  | inr b ↦ rw b (elim h [
    | inl e ↦ inr (insert-In r a qs (inl e))
    | inr i ↦ elim i [ inl e ↦ inl e | inr j ↦ inr (insert-In r a qs (inr j)) ]
  ])
]

In-insert : (r a : Rule) (qs : List Rule) → In a (insert r qs) → (a ≡ r) ⊎ In a qs
unfolding insert
In-insert r a [] i = i
In-insert r a (q ∷ qs) i = elim (Bool-cases (goes_before r q)) [
  | inl b ↦ rw b at i
  | inr b ↦ elim (split_at (rw b at i)) [
    | inl e ↦ inr (inl e)
    | inr j ↦ elim (In-insert r a qs j) [ inl e ↦ inl e | inr k ↦ inr (inr k) ]
  ]
]
  where
    split_at : In a (q ∷ insert r qs) → (a ≡ q) ⊎ In a (insert r qs)
    split_at h = h

insert_all-In : (rs qs : List Rule) (a : Rule) → In a rs ⊎ In a qs → In a (insert_all qs rs)
unfolding insert_all
insert_all-In [] qs a (inl i) = absurd i
insert_all-In [] qs a (inr i) = i
insert_all-In (r ∷ rs) qs a (inl (inl e)) =
    insert_all-In rs (insert r qs) a (inr (insert-In r a qs (inl e)))
insert_all-In (r ∷ rs) qs a (inl (inr i)) = insert_all-In rs (insert r qs) a (inl i)
insert_all-In (r ∷ rs) qs a (inr i) =
    insert_all-In rs (insert r qs) a (inr (insert-In r a qs (inr i)))

-- Sorting brings in nothing new.
sorted-In : (rs qs : List Rule) (a : Rule) → In a (insert_all qs rs) → In a rs ⊎ In a qs
unfolding insert_all
sorted-In [] qs a i = inr i
sorted-In (r ∷ rs) qs a i = elim (sorted-In rs (insert r qs) a i) [
  | inl j ↦ inl (inr j)
  | inr j ↦ elim (In-insert r a qs j) [ inl e ↦ inl (inl e) | inr k ↦ inr k ]
]

In-sort_slice : (rs : List Rule) (a : Rule) → In a (sort_slice rs) → In a rs
unfolding sort_slice
In-sort_slice rs a i = elim (sorted-In rs [] a i) [ inl j ↦ j | inr n ↦ absurd n ]

sort_slice-In : (rs : List Rule) (a : Rule) → In a rs → In a (sort_slice rs)
unfolding sort_slice
sort_slice-In rs a i = insert_all-In rs [] a (inl i)

head-none : (rs : List Rule) → head? rs ≡ none → (a : Rule) → ¬ In a rs
head-none [] e a i = i
head-none (r ∷ rs) e a i = cc

head-In : (rs : List Rule) {r : Rule} → head? rs ≡ some r → In r rs
head-In [] e = cc
head-In (q ∷ rs) {r} e = let same : r ≡ q = cc in inl same

none-head : (rs : List Rule) → ((a : Rule) → ¬ In a rs) → head? rs ≡ none
none-head [] h = refl
none-head (r ∷ rs) h = absurd (h r (inl refl))

insert-HeadMax :
    (r : Rule) (qs : List Rule)
    → HasAction r
    → All HasAction qs
    → HeadMax qs
    → HeadMax (insert r qs)
unfolding insert
insert-HeadMax r [] h hs m = tt
insert-HeadMax r (q ∷ qs) h hs m = elim (Bool-cases (goes_before r q)) [
  | inl b ↦ rw b (omega (arith, above b), All-weaken qs (λ x x≤. omega (arith, above b, x≤)) m)
  | inr b ↦ rw b (All-insert (λ x. rank x ≤ rank q) r qs (below b) m)
]
  where
    above : goes_before r q ≡ true → rank q ≤ rank r
    above b = ground (arith, goes_before-eq-ltb r q h hs.0)

    below : goes_before r q ≡ false → rank r ≤ rank q
    below b = ground (arith, goes_before-eq-ltb r q h hs.0)

insert_all-HeadMax :
    (rs qs : List Rule)
    → All HasAction rs
    → All HasAction qs
    → HeadMax qs
    → HeadMax (insert_all qs rs)
unfolding insert_all
insert_all-HeadMax [] qs h hs m = m
insert_all-HeadMax (r ∷ rs) qs h hs m =
    insert_all-HeadMax rs (insert r qs) h.1 (All-insert HasAction r qs h.0 hs)
      (insert-HeadMax r qs h.0 hs m)

abbrev pub AllActions : Db → Type 0
AllActions db = All HasAction db.rules

module _ (now : ℕ) (container host : Str) (port : ℤ) (resolved : Str) (db : Db) where
  -- The rule is in force for the container and matches the connection.
  pub record Applies (r : Rule) : Type 0 where
    pub present : In r db.rules
    pub visible : is_visible now container db r ≡ true
    pub matches : rule_matches container host port resolved r ≡ true

  applicable→Applies :
      (r : Rule) → In r (applicable now container host port resolved db) → Applies r
  unfolding applicable
  applicable→Applies r i =
      let (j, t) = keep-In _ r db.rules i in
      record { present = j; visible = ground arith; matches = ground arith }

  Applies→applicable :
      (r : Rule) → Applies r → In r (applicable now container host port resolved db)
  unfolding applicable
  Applies→applicable r a = In-keep _ r db.rules a.present (ground arith)

  -- The result of a search: it applies, and no rule that applies ranks above it.
  pub record IsBest (r : Rule) : Type 0 where
    pub applies : Applies r
    pub highest : (q : Rule) → Applies q → rank q ≤ rank r

  head-IsBest :
      (sorted : List Rule)
      → HeadMax sorted
      → ((a : Rule) → In a sorted → Applies a)
      → ((a : Rule) → Applies a → In a sorted)
      → {r : Rule} → head? sorted ≡ some r
      → IsBest r
  head-IsBest [] m sound complete e = cc
  head-IsBest (q ∷ qs) m sound complete {r} e = subst IsBest p (record {
    applies = sound q (inl refl);
    highest = λ a h. elim (complete a h) [
      | inl same ↦ rw same (omega arith)
      | inr i ↦ All-In (λ x. rank x ≤ rank q) qs m i
    ];
  })
    where
      p : q ≡ r
      p = cc

  pub find_matching_rule-Applies :
      {r : Rule} → find_matching_rule now container host port resolved db ≡ some r → Applies r
  unfolding find_matching_rule
  find_matching_rule-Applies e =
      applicable→Applies _
        (In-sort_slice (applicable now container host port resolved db) _ (head-In _ e))

  -- A found rule is a best one.
  pub find_matching_rule-IsBest :
      {r : Rule}
      → AllActions db
      → find_matching_rule now container host port resolved db ≡ some r
      → IsBest r
  unfolding find_matching_rule sort_slice
  find_matching_rule-IsBest acts e =
      head-IsBest (sort_slice found)
        (insert_all-HeadMax found [] (unfold applicable in All-keep HasAction _ db.rules acts) tt
          tt)
        (λ a i. applicable→Applies a (In-sort_slice found a i))
        (λ a h. sort_slice-In found a (Applies→applicable a h)) e
    where
      found : List Rule
      found = applicable now container host port resolved db

  -- A search returns nothing exactly when no rule applies to the connection.
  find_matching_rule-none_iff :
      (find_matching_rule now container host port resolved db ≡ none) ↔ ((r : Rule) → ¬ Applies r)
  unfolding find_matching_rule
  find_matching_rule-none_iff = (
    λ e r a. head-none (sort_slice found) e r (sort_slice-In found r (Applies→applicable r a)),
    λ h. none-head (sort_slice found) λ a i. h a (applicable→Applies a (In-sort_slice found a i)),
  )
    where
      found : List Rule
      found = applicable now container host port resolved db

  -- What a search may return: a best rule, or nothing where no rule applies.
  abbrev pub IsOutcome : Option Rule → Type 0
  IsOutcome (some r) = IsBest r
  IsOutcome none = (r : Rule) → ¬ Applies r

  -- If every rule of the table has the action allow or deny, a search returns nothing only where no
  -- rule applies to the connection. Otherwise it returns one that applies, and none that applies has
  -- a higher layer, or the same layer and a higher specificity, or those the same and denies where
  -- the returned one allows.
  pub find_matching_rule-IsOutcome :
      AllActions db → IsOutcome (find_matching_rule now container host port resolved db)
  find_matching_rule-IsOutcome acts =
      elim (Option-cases (find_matching_rule now container host port resolved db)) [
        | inl e ↦ rw e (find_matching_rule-none_iff.0 e)
        | inr (r, e) ↦ rw e (find_matching_rule-IsBest acts e)
      ]

  -- Which of the best rules a search returns makes no difference to the decision: if every rule of
  -- the table has the action allow or deny, all of them have the action of the returned one.
  pub find_matching_rule-decides :
      {q r : Rule}
      → AllActions db
      → find_matching_rule now container host port resolved db ≡ some r
      → IsBest q
      → q.action ≡ r.action
  find_matching_rule-decides {q} {r} acts e best =
      let best' = find_matching_rule-IsBest acts e in
      same_rank q r (All-In HasAction db.rules acts best.applies.present)
        (All-In HasAction db.rules acts best'.applies.present)
        (omega (arith, best.highest r best'.applies, best'.highest q best.applies))
