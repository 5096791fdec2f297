-- ===== src/Prelude/Tests.antt =====
-- Boolean tests, the conditional, and the interface of types with a decided equality.
use Prim.Native.Nat.{ℕ, compare, Ordering}
use Prim.Native.String.{String}
use mathlib.Core.Path.{◌≡◌, refl, sym, ◌∙◌}
use mathlib.Core.Logic.{◌↔◌, ◌≢◌, ◌⊎◌, inl, inr}
use mathlib.Core.Bool.{Bool, true, false, ◌&&◌}
use mathlib.Core.Option.{Option, none, some}
use mathlib.Core.List.{List, [], ◌∷◌}
use native.Mathlib.Omega.{arith}
use text.Mathlib.Text.{◌==◌ as str_eq}
use text.Mathlib.TextEquality.{eq_iff}

-- These compute to `compare`, which `ground` and `grind` read with no lemma listed.
abbrev pub ltb : ℕ → ℕ → Bool
ltb a b = elim (compare a b) [ Ordering.lt ↦ true | _ ↦ false ]

abbrev pub leb : ℕ → ℕ → Bool
leb a b = elim (compare a b) [ Ordering.gt ↦ false | _ ↦ true ]

abbrev pub eqb : ℕ → ℕ → Bool
eqb a b = elim (compare a b) [ Ordering.eq ↦ true | _ ↦ false ]

infix 1 if◌then◌else◌
abbrev pub if◌then◌else◌ {ℓ} : {A : Type ℓ} → Bool → A → A → A
if true then x else y = x
if false then x else y = y

pub eqb_iff : (a b : ℕ) → (eqb a b ≡ true) ↔ (a ≡ b)
eqb_iff a b = ground arith

-- A type with a Boolean test that decides its equality.
pub record HasTest {ℓ} (A : Type ℓ) : Type ℓ where
  pub same : A → A → Bool
  pub same_iff : (x y : A) → (same x y ≡ true) ↔ (x ≡ y)

unfoldable pub list_eqb : List ℕ → List ℕ → Bool
list_eqb [] [] = true
list_eqb (x ∷ xs) (y ∷ ys) = eqb x y && list_eqb xs ys
list_eqb _ _ = false

list_eqb→eq : (xs ys : List ℕ) → list_eqb xs ys ≡ true → xs ≡ ys
unfolding list_eqb
list_eqb→eq [] [] h = refl
list_eqb→eq [] (y ∷ ys) h = cc
list_eqb→eq (x ∷ xs) [] h = cc
list_eqb→eq (x ∷ xs) (y ∷ ys) h = ground (arith, list_eqb→eq xs ys)

list_eqb_refl : (xs : List ℕ) → list_eqb xs xs ≡ true
unfolding list_eqb
list_eqb_refl [] = refl
list_eqb_refl (x ∷ xs) = ground (arith, list_eqb_refl xs)

pub list_eqb_iff : (xs ys : List ℕ) → (list_eqb xs ys ≡ true) ↔ (xs ≡ ys)
list_eqb_iff xs ys = (list_eqb→eq xs ys, λ e. rw e (list_eqb_refl ys))

instance abbrev pub list_eq : HasTest (List ℕ)
list_eq = record { same = list_eqb; same_iff = list_eqb_iff }

-- Short texts that are only compared: actions, modes, scopes, identifiers.
instance abbrev pub string_eq : HasTest String
string_eq = record { same = str_eq; same_iff = eq_iff }

instance abbrev pub nat_eq : HasTest ℕ
nat_eq = record { same = eqb; same_iff = eqb_iff }

infix 50 ◌==◌
abbrev pub ◌==◌ {ℓ} : {A : Type ℓ} ⦃test : HasTest A⦄ → A → A → Bool
◌==◌ ⦃test⦄ x y = test.same x y

-- To split on a computed value and keep the equation.
pub Bool-cases : (b : Bool) → (b ≡ true) ⊎ (b ≡ false)
Bool-cases true = inl refl
Bool-cases false = inr refl

pub Option-cases {ℓ} : {A : Type ℓ} (o : Option A) → (o ≡ none) ⊎ ((a : A) × (o ≡ some a))
Option-cases none = inl refl
Option-cases (some a) = inr (a, refl)

module _ {ℓ} {A : Type ℓ} ⦃e : HasTest A⦄ where
  pub ==_refl : (a : A) → (a == a) ≡ true
  ==_refl a = (e.same_iff a a).1 refl

  pub ==_ne : (a b : A) → a ≢ b → (a == b) ≡ false
  ==_ne a b n = elim (Bool-cases (a == b)) [ inl h ↦ absurd (n ((e.same_iff a b).0 h)) | inr h ↦ h ]

  pub ==_dec : (a b : A) → (a ≡ b) ⊎ (a ≢ b)
  ==_dec a b = elim (Bool-cases (a == b)) [
    | inl h ↦ inl ((e.same_iff a b).0 h)
    | inr h ↦ inr (λ p. cc ((e.same_iff a b).1 p))
  ]

  pub ==_comm : (a b : A) → (a == b) ≡ (b == a)
  ==_comm a b = elim (Bool-cases (a == b)) [
    | inl h ↦ h ∙ sym ((e.same_iff b a).1 (sym ((e.same_iff a b).0 h)))
    | inr h ↦ h ∙ sym (==_ne b a (λ p. cc ((e.same_iff a b).1 (sym p))))
  ]
