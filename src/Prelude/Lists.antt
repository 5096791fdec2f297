-- ===== src/Prelude/Lists.antt =====
-- Lists measured and indexed by native numbers, under the library's names, and tests over a list.
use Prim.Native.Nat.{ℕ, zero, suc, ◌+◌, ◌-◌}
use mathlib.Core.Path.{◌≡◌, refl, ap, subst, sym}
use mathlib.Core.Logic.{◌⊎◌, inl, inr}
use mathlib.Core.Bool.{Bool, true, false, not, ◌||◌}
use mathlib.Core.List.{List, [], ◌∷◌, ◌++◌, map}
use mathlib.Core.Option.{Option, none, some}
use native.Mathlib.Omega.{arith}
use greyproxy.Prelude.Tests.{if◌then◌else◌, Bool-cases}

module _ {ℓ} {A : Type ℓ} where
  abbrev pub length : List A → ℕ
  length [] = 0
  length (x ∷ xs) = suc (length xs)

  abbrev pub take : ℕ → List A → List A
  take zero xs = []
  take (suc n) [] = []
  take (suc n) (x ∷ xs) = x ∷ take n xs

  abbrev pub drop : ℕ → List A → List A
  drop zero xs = xs
  drop (suc n) [] = []
  drop (suc n) (x ∷ xs) = drop n xs

  -- The first element, as `xs[0]` behind a test of the length.
  abbrev pub head? : List A → Option A
  head? [] = none
  head? (x ∷ xs) = some x

  unfoldable pub any : (A → Bool) → List A → Bool
  any p [] = false
  any p (x ∷ xs) = p x || any p xs

  -- The elements that pass a test, in order.
  unfoldable pub keep : (A → Bool) → List A → List A
  keep p [] = []
  keep p (x ∷ xs) = let rest = keep p xs in if p x then x ∷ rest else rest

  -- The first element that passes a test.
  unfoldable pub first : (A → Bool) → List A → Option A
  first p [] = none
  first p (x ∷ xs) = if p x then some x else first p xs

-- Membership with its position kept.
module _ {A : Type 0} where
  abbrev pub In : A → List A → Type 0
  In a [] = ⊥
  In a (x ∷ xs) = (a ≡ x) ⊎ In a xs

module _ {ℓ κ} {A : Type ℓ} where
  abbrev pub All : (A → Type κ) → List A → Type κ
  All P [] = Unit
  All P (x ∷ xs) = P x × All P xs

module _ {ℓ} {A : Type ℓ} where
  pub length-append : (xs ys : List A) → length (xs ++ ys) ≡ length xs + length ys
  length-append [] ys = omega arith
  length-append (x ∷ xs) ys = omega (arith, length-append xs ys)

  pub take-append-drop : (n : ℕ) (xs : List A) → take n xs ++ drop n xs ≡ xs
  take-append-drop zero xs = refl
  take-append-drop (suc n) [] = refl
  take-append-drop (suc n) (x ∷ xs) = rw (take-append-drop n xs)

  pub length-drop : (n : ℕ) (xs : List A) → length (drop n xs) ≡ length xs - n
  length-drop zero xs = omega arith
  length-drop (suc n) [] = omega arith
  length-drop (suc n) (x ∷ xs) = omega (arith, length-drop n xs)

  pub drop-nil : (n : ℕ) → drop {A = A} n [] ≡ []
  drop-nil zero = refl
  drop-nil (suc n) = refl

  pub drop-length_append : (xs ys : List A) → drop (length xs) (xs ++ ys) ≡ ys
  drop-length_append [] ys = refl
  drop-length_append (x ∷ xs) ys = drop-length_append xs ys

module _ {A : Type 0} where
  pub In-keep : (p : A → Bool) (a : A) (xs : List A) → In a xs → p a ≡ true → In a (keep p xs)
  unfolding keep
  In-keep p a [] h t = h
  In-keep p a (x ∷ xs) (inl e) t = rw (← e, t) (inl refl)
  In-keep p a (x ∷ xs) (inr h) t = elim (Bool-cases (p x)) [
    | inl q ↦ rw q (inr (In-keep p a xs h t))
    | inr q ↦ rw q (In-keep p a xs h t)
  ]

  pub keep-In : (p : A → Bool) (a : A) (xs : List A) → In a (keep p xs) → In a xs × (p a ≡ true)
  unfolding keep
  keep-In p a [] h = absurd h
  keep-In p a (x ∷ xs) h = elim (Bool-cases (p x)) [
    | inl q ↦ keep-In_head p a x xs (keep-In p a xs) q (rw q at h)
    | inr q ↦ let (i, t) = keep-In p a xs (rw q at h) in (inr i, t)
  ]
    where
      keep-In_head :
          (p : A → Bool) (a x : A) (xs : List A)
          → (In a (keep p xs) → In a xs × (p a ≡ true))
          → p x ≡ true
          → In a (x ∷ keep p xs)
          → In a (x ∷ xs) × (p a ≡ true)
      keep-In_head p a x xs ih q (inl e) = (inl e, rw e q)
      keep-In_head p a x xs ih q (inr i) = let (j, t) = ih i in (inr j, t)

  pub first-In : (p : A → Bool) (xs : List A) {a : A} → first p xs ≡ some a → In a xs × (p a ≡ true)
  unfolding first
  first-In p [] h = cc
  first-In p (x ∷ xs) {a} h = elim (Bool-cases (p x)) [
    | inl q ↦ let e : x ≡ a = cc (rw q at h) in (inl (sym' e), rw (sym' e) q)
    | inr q ↦ let (i, t) = first-In p xs (rw q at h) in (inr i, t)
  ]
    where
      sym' : {x y : A} → x ≡ y → y ≡ x
      sym' e = cc

  pub first-none :
      (p : A → Bool) (xs : List A) → first p xs ≡ none → (a : A) → In a xs → p a ≡ false
  unfolding first
  first-none p [] h a i = absurd i
  first-none p (x ∷ xs) h a (inl e) = ground (arith, ap p e)
  first-none p (x ∷ xs) h a (inr i) = elim (Bool-cases (p x)) [
    | inl q ↦ cc (rw q at h)
    | inr q ↦ first-none p xs (rw q at h) a i
  ]

module _ {ℓ κ} {A : Type ℓ} (P : A → Type κ) where
  pub All-append : (xs ys : List A) → All P xs → All P ys → All P (xs ++ ys)
  All-append [] ys hx hy = hy
  All-append (x ∷ xs) ys hx hy = (hx.0, All-append xs ys hx.1 hy)

  pub All-keep : (p : A → Bool) (xs : List A) → All P xs → All P (keep p xs)
  unfolding keep
  All-keep p [] h = tt
  All-keep p (x ∷ xs) h = elim (Bool-cases (p x)) [
    | inl q ↦ rw q (h.0, All-keep p xs h.1)
    | inr q ↦ rw q (All-keep p xs h.1)
  ]

  pub All-map : (f : A → A) (xs : List A) → ((x : A) → P x → P (f x)) → All P xs → All P (map f xs)
  All-map f [] k h = tt
  All-map f (x ∷ xs) k h = (k x h.0, All-map f xs k h.1)

module _ {ℓ κ} {A : Type ℓ} {P Q : A → Type κ} where
  pub All-weaken : (xs : List A) → ((x : A) → P x → Q x) → All P xs → All Q xs
  All-weaken [] k h = tt
  All-weaken (x ∷ xs) k h = (k x h.0, All-weaken xs k h.1)

  pub All-zip :
      {R : A → Type κ} (xs : List A) → ((x : A) → P x → Q x → R x) → All P xs → All Q xs → All R xs
  All-zip [] k h g = tt
  All-zip (x ∷ xs) k h g = (k x h.0 g.0, All-zip xs k h.1 g.1)

-- A relation from each element to all that stand behind it.
module _ {ℓ κ} {A : Type ℓ} where
  abbrev pub Pairs : (A → A → Type κ) → List A → Type κ
  Pairs R [] = Unit
  Pairs R (x ∷ xs) = All (R x) xs × Pairs R xs

module _ {ℓ κ} {A : Type ℓ} (R : A → A → Type κ) where
  pub Pairs-keep : (p : A → Bool) (xs : List A) → Pairs R xs → Pairs R (keep p xs)
  unfolding keep
  Pairs-keep p [] h = tt
  Pairs-keep p (x ∷ xs) h = elim (Bool-cases (p x)) [
    | inl q ↦ rw q (All-keep (R x) p xs h.0, Pairs-keep p xs h.1)
    | inr q ↦ rw q (Pairs-keep p xs h.1)
  ]

  All-map_related :
      (f : A → A) (x : A) (ys : List A)
      → ((y : A) → R x y → R (f x) (f y))
      → All (R x) ys
      → All (R (f x)) (map f ys)
  All-map_related f x [] k h = tt
  All-map_related f x (y ∷ ys) k h = (k y h.0, All-map_related f x ys k h.1)

  pub Pairs-map :
      (f : A → A) (xs : List A)
      → ((x y : A) → R x y → R (f x) (f y))
      → Pairs R xs
      → Pairs R (map f xs)
  Pairs-map f [] k h = tt
  Pairs-map f (x ∷ xs) k h = (All-map_related f x xs (k x) h.0, Pairs-map f xs k h.1)

  pub Pairs-snoc : (xs : List A) (y : A) → Pairs R xs → All (λ x. R x y) xs → Pairs R (xs ++ y ∷ [])
  Pairs-snoc [] y h g = (tt, tt)
  Pairs-snoc (x ∷ xs) y h g = (All-append (R x) xs (y ∷ []) h.0 (g.0, tt), Pairs-snoc xs y h.1 g.1)

module _ {A : Type 0} (P : A → Type 0) where
  pub All-In : (xs : List A) {a : A} → All P xs → In a xs → P a
  All-In [] h i = absurd i
  All-In (x ∷ xs) h (inl e) = subst P (sym e) h.0
  All-In (x ∷ xs) h (inr i) = All-In xs h.1 i

module _ {ℓ} {A : Type ℓ} where
  pub any-false : (p : A → Bool) (xs : List A) → any p xs ≡ false → All (λ x. p x ≡ false) xs
  unfolding any
  any-false p [] h = tt
  any-false p (x ∷ xs) h = elim (Bool-cases (p x)) [
    | inl q ↦ ground (arith)
    | inr q ↦ (q, any-false p xs (rw q at h))
  ]

  pub any-first : (p : A → Bool) (xs : List A) → any p xs ≡ true → (a : A) × (first p xs ≡ some a)
  unfolding any first
  any-first p [] h = cc
  any-first p (x ∷ xs) h = elim (Bool-cases (p x)) [
    | inl q ↦ (x, rw q)
    | inr q ↦ let (a, e) = any-first p xs (rw q at h) in (a, rw q e)
  ]

  pub first-append_none :
      (p : A → Bool) (xs ys : List A) → All (λ x. p x ≡ false) xs → first p (xs ++ ys) ≡ first p ys
  unfolding first
  first-append_none p [] ys h = refl
  first-append_none p (x ∷ xs) ys h = rw h.0 (first-append_none p xs ys h.1)

module _ {A : Type 0} where
  pub In-append_right : (xs : List A) (a : A) (ys : List A) → In a (xs ++ a ∷ ys)
  In-append_right [] a ys = inl refl
  In-append_right (x ∷ xs) a ys = inr (In-append_right xs a ys)

  pub any-In : (p : A → Bool) (xs : List A) → any p xs ≡ true → (a : A) × In a xs × (p a ≡ true)
  unfolding any
  any-In p [] h = cc
  any-In p (x ∷ xs) h = elim (Bool-cases (p x)) [
    | inl q ↦ (x, inl refl, q)
    | inr q ↦ let (a, i, t) = any-In p xs (rw q at h) in (a, inr i, t)
  ]

  pub In-first :
      (p : A → Bool) (xs : List A) {a : A} → In a xs → p a ≡ true → (b : A) × (first p xs ≡ some b)
  unfolding first
  In-first p [] i t = absurd i
  In-first p (x ∷ xs) (inl e) t = (x, rw (← e, t))
  In-first p (x ∷ xs) (inr i) t = elim (Bool-cases (p x)) [
    | inl q ↦ (x, rw q)
    | inr q ↦ let (b, e) = In-first p xs i t in (b, rw q e)
  ]

module _ {ℓ} {A : Type ℓ} where
  pub first-none-All : (p : A → Bool) (xs : List A) → first p xs ≡ none → All (λ x. p x ≡ false) xs
  unfolding first
  first-none-All p [] h = tt
  first-none-All p (x ∷ xs) h = elim (Bool-cases (p x)) [
    | inl q ↦ cc (rw q at h)
    | inr q ↦ (q, first-none-All p xs (rw q at h))
  ]

  -- Removing elements that fail the test does not change the first that passes it.
  pub first-keep_apart :
      (p d : A → Bool) (xs : List A)
      → ((x : A) → d x ≡ true → p x ≡ false)
      → first p (keep (λ x. not (d x)) xs) ≡ first p xs
  unfolding first keep
  first-keep_apart p d [] h = refl
  first-keep_apart p d (x ∷ xs) h = elim (Bool-cases (d x)) [
    | inl q ↦ ground (arith, q, h x q, first-keep_apart p d xs h)
    | inr q ↦ ground (arith, q, first-keep_apart p d xs h)
  ]
