-- ===== src/Conversation/Pieces.antt =====
-- Cutting a list into pieces, and what it means for the invocations of subagents and for the groups of
-- the time-gap heuristic.
use mathlib.Core.List.{append_assoc, append-nil}
use greyproxy.Prelude.{
  ◌≡◌, ◌≢◌, ◌↔◌, refl, sym, ap, ◌∙◌, Bool, true, false, List, [], ◌∷◌, ◌++◌, Bool-cases, inl, inr,
  In,
}
use greyproxy.Go.Sort.{sort, In-sort}
use greyproxy.Conversation.{TransactionEntry}
use greyproxy.Conversation.Threads.{
  split_when, is_earlier, starts_invocation, split_subagent_invocations, starts_group,
  group_by_time_gap,
}

abbrev pub concat {ℓ} : {A : Type ℓ} → List (List A) → List A
concat [] = []
concat (xs ∷ xss) = xs ++ concat xss

module _ {A : Type 0} (starts : List A → A → Bool) where
  -- No element of the list starts a piece behind those before it.
  abbrev pub Steady : List A → List A → Type 0
  Steady before [] = Unit
  Steady before (x ∷ xs) = (starts before x ≡ false) × Steady (before ++ x ∷ []) xs

  abbrev pub Begins : List A → List A → Type 0
  Begins piece [] = ⊥
  Begins piece (x ∷ xs) = starts piece x ≡ true

  -- Pieces cut at exactly the elements that start one.
  abbrev pub IsCut : List (List A) → Type 0
  IsCut [] = Unit
  IsCut (p ∷ []) = (p ≢ []) × Steady [] p
  IsCut (p ∷ q ∷ ps) = (p ≢ []) × Steady [] p × Begins p q × IsCut (q ∷ ps)

  Steady-snoc :
      (before xs : List A) (x : A)
      → Steady before xs
      → starts (before ++ xs) x ≡ false
      → Steady before (xs ++ x ∷ [])
  Steady-snoc before [] x h s = (rw (sym (append-nil before)) s, tt)
  Steady-snoc before (y ∷ ys) x h s =
      (h.0, Steady-snoc (before ++ y ∷ []) ys x h.1 (rw (append_assoc before (y ∷ []) ys) s))

  concat-split_when : (current xs : List A) → concat (split_when starts current xs) ≡ current ++ xs
  unfolding split_when
  concat-split_when [] [] = refl
  concat-split_when (c ∷ current) [] = refl
  concat-split_when current (x ∷ xs) = elim (Bool-cases (starts current x)) [
    | inl t ↦ rw (t, split_when) (ap (λ r. current ++ r) (concat-split_when (x ∷ []) xs))
    | inr t ↦
        rw (t, split_when)
          (concat-split_when (current ++ x ∷ []) xs ∙ append_assoc current (x ∷ []) xs)
  ]

  -- The first piece goes on from the one that is under way.
  Goes : A → List (List A) → Type 0
  Goes c pieces = (ds : List A) × (rest : List (List A)) × (pieces ≡ (c ∷ ds) ∷ rest)

  split_when-Goes : (c : A) (current xs : List A) → Goes c (split_when starts (c ∷ current) xs)
  unfolding split_when Goes
  split_when-Goes c current [] = (current, [], refl)
  split_when-Goes c current (x ∷ xs) = elim (Bool-cases (starts (c ∷ current) x)) [
    | inl t ↦ (current, split_when starts (x ∷ []) xs, rw (t, split_when))
    | inr t ↦
        let (ds, rest, e) = split_when-Goes c (current ++ x ∷ []) xs in
        (ds, rest, rw (t, split_when) e)
  ]

  IsCut-cons :
      (p : List A) (x : A) (pieces : List (List A))
      → p ≢ []
      → Steady [] p
      → starts p x ≡ true
      → Goes x pieces
      → IsCut pieces
      → IsCut (p ∷ pieces)
  unfolding Goes
  IsCut-cons p x pieces n s b (ds, rest, e) h = rw e (n, s, b, rw e at h)

  split_when-IsCut :
      (c : A) (current xs : List A)
      → Steady [] (c ∷ current)
      → ((x : A) → starts [] x ≡ false)
      → IsCut (split_when starts (c ∷ current) xs)
  unfolding split_when
  split_when-IsCut c current [] s h = (λ e. cc, s)
  split_when-IsCut c current (x ∷ xs) s h = elim (Bool-cases (starts (c ∷ current) x)) [
    | inl t ↦
        rw (t, split_when)
          (IsCut-cons (c ∷ current) x (split_when starts (x ∷ []) xs) (λ e. cc) s t
            (split_when-Goes x [] xs) (split_when-IsCut x [] xs (h x, tt) h))
    | inr t ↦
        rw (t, split_when)
          (split_when-IsCut c (current ++ x ∷ []) xs (Steady-snoc [] (c ∷ current) x s t) h)
  ]

  split_all-IsCut :
      (xs : List A) → ((x : A) → starts [] x ≡ false) → IsCut (split_when starts [] xs)
  unfolding split_when
  split_all-IsCut [] h = tt
  split_all-IsCut (x ∷ xs) h = rw (h x, split_when) (split_when-IsCut x [] xs (h x, tt) h)

pub split_subagent_invocations-IsCut :
    (entries : List TransactionEntry)
    → IsCut starts_invocation (split_subagent_invocations entries)
      × (concat (split_subagent_invocations entries) ≡ sort is_earlier entries)
      × ((e : TransactionEntry) → In e (concat (split_subagent_invocations entries)) ↔ In e entries)
      × IsCut starts_group (group_by_time_gap entries)
      × (concat (group_by_time_gap entries) ≡ entries)
unfolding split_subagent_invocations group_by_time_gap starts_invocation starts_group
split_subagent_invocations-IsCut entries =
    let joined = concat-split_when starts_invocation [] (sort is_earlier entries) in
    (
      split_all-IsCut starts_invocation (sort is_earlier entries) (λ x. refl),
      joined,
      λ e. rw joined (In-sort is_earlier e entries),
      split_all-IsCut starts_group entries (λ x. refl),
      concat-split_when starts_group [] entries,
    )
