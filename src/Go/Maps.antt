-- ===== src/Go/Maps.antt =====
-- Go's maps as association lists, in the order in which a `range` happens to take the keys.
use greyproxy.Prelude.{
  ◌≡◌, refl, ◌∙◌, true, false, not, Option, none, some, List, [], ◌∷◌, ◌==◌, HasTest, if◌then◌else◌,
  keep, Bool-cases, inl, inr, ==_ne, sym, ==_comm, All, Pairs, Pairs-keep,
}

true_ne_false : true ≡ false → ⊥
true_ne_false h = cc

module _ {ℓ κ} {K : Type ℓ} {V : Type κ} ⦃test : HasTest K⦄ where
  -- `m[k]`
  unfoldable pub get : K → List (K × V) → Option V
  get k [] = none
  get k ((j, v) ∷ m) = if j == k then some v else get k m

  -- `delete(m, k)`
  unfoldable pub delete : K → List (K × V) → List (K × V)
  unfolding keep
  delete k m = keep (λ (j, v). not (j == k)) m

  -- `m[k] = v`
  unfoldable pub put : K → V → List (K × V) → List (K × V)
  unfolding delete
  put k v m = (k, v) ∷ delete k m

  get-delete_same :
      (k i j : K) (v : V) (r : Option V)
      → i ≡ k
      → (if k == j then none else r) ≡ (if k == j then none else if i == j then some v else r)
  get-delete_same k i j v r e = rw e (elim (Bool-cases (k == j)) [ inl q ↦ rw q | inr q ↦ rw q ])

  get-delete_other :
      (k i j : K) (v : V) (r r' : Option V)
      → (i == k) ≡ false
      → r' ≡ (if k == j then none else r)
      → (if i == j then some v else r') ≡ (if k == j then none else if i == j then some v else r)
  get-delete_other k i j v r r' q ih = elim (Bool-cases (i == j)) [
    | inl p ↦
        let e : i ≡ j = (test.same_iff i j).0 p in
        let n : (k == j) ≡ false =
          ==_ne k j (λ h. true_ne_false (sym ((test.same_iff i k).1 (e ∙ sym h)) ∙ q)) in
        rw (p, n)
    | inr p ↦ rw p ih
  ]

  pub get-delete :
      (k j : K) (m : List (K × V)) → get j (delete k m) ≡ (if k == j then none else get j m)
  unfolding get delete keep
  get-delete k j [] = elim (Bool-cases (k == j)) [ inl q ↦ rw q | inr q ↦ rw q ]
  get-delete k j ((i, v) ∷ m) = elim (Bool-cases (i == k)) [
    | inl q ↦ rw q (get-delete k j m ∙ get-delete_same k i j v (get j m) ((test.same_iff i k).0 q))
    | inr q ↦ rw q (get-delete_other k i j v (get j m) _ q (get-delete k j m))
  ]

  pub get-put :
      (k j : K) (v : V) (m : List (K × V))
      → get j (put k v m) ≡ (if k == j then some v else get j m)
  unfolding get put
  get-put k j v m = elim (Bool-cases (k == j)) [
    | inl q ↦ rw q
    | inr q ↦ rw q (get-delete k j m ∙ rw q)
  ]

  -- Each key stands once.
  abbrev pub Unique : List (K × V) → Type 0
  Unique m = Pairs (λ e f. (e.0 == f.0) ≡ false) m

  pub delete-Unique : (k : K) (m : List (K × V)) → Unique m → Unique (delete k m)
  unfolding delete
  delete-Unique k m h = Pairs-keep _ _ m h

  absent-delete : (k : K) (m : List (K × V)) → All (λ e. (k == e.0) ≡ false) (delete k m)
  unfolding delete keep
  absent-delete k [] = tt
  absent-delete k ((j, v) ∷ m) = elim (Bool-cases (j == k)) [
    | inl q ↦ rw q (absent-delete k m)
    | inr q ↦ rw q (==_comm k j ∙ q, absent-delete k m)
  ]

  pub put-Unique : (k : K) (v : V) (m : List (K × V)) → Unique m → Unique (put k v m)
  unfolding put
  put-Unique k v m h = (absent-delete k m, delete-Unique k m h)

  pub get-absent : (k : K) (m : List (K × V)) → All (λ e. (k == e.0) ≡ false) m → get k m ≡ none
  unfolding get
  get-absent k [] h = refl
  get-absent k ((j, v) ∷ m) h = rw (==_comm j k ∙ h.0) (get-absent k m h.1)
