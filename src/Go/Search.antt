-- ===== src/Go/Search.antt =====
-- Package strings: Index, Contains, Cut and ReplaceAll, which look for the first occurrence.
pub mod Replace
use greyproxy.Prelude.{
  ℕ, ◌≤◌, ◌≡◌, Bool, true, false, Option, none, some, [], ◌∷◌, ◌++◌, arith, if◌then◌else◌, length,
  drop, Bool-cases, Option-cases, inl, inr, drop-nil,
}
use greyproxy.Go.Strings.{Str, has_prefix, has_prefix-append, has_prefix-drop}

abbrev put_front : ℕ → Option (Str × Str) → Option (Str × Str)
put_front c none = none
put_front c (some (a, b)) = some (c ∷ a, b)

-- The text before the first occurrence of `sep`, and the text after it.
unfoldable pub cut : Str → Str → Option (Str × Str)
cut [] sep = if has_prefix [] sep then some ([], []) else none
cut (c ∷ s) sep =
    if has_prefix (c ∷ s) sep then some ([], drop (length sep) (c ∷ s)) else put_front c (cut s sep)

abbrev pub before_length : Option (Str × Str) → Option ℕ
before_length none = none
before_length (some (a, b)) = some (length a)

abbrev pub is_some {ℓ} : {A : Type ℓ} → Option A → Bool
is_some none = false
is_some (some a) = true

unfoldable pub index : Str → Str → Option ℕ
index s sep = before_length (cut s sep)

unfoldable pub contains : Str → Str → Bool
contains s sep = is_some (cut s sep)

-- What `cut` returns lies around an occurrence.
pub cut-eq : (s sep a b : Str) → cut s sep ≡ some (a, b) → s ≡ a ++ (sep ++ b)
unfolding cut
cut-eq [] sep a b h = ground (arith, has_prefix-drop [] sep, drop-nil {A = ℕ} (length sep))
cut-eq (c ∷ s) sep a b h = elim (Bool-cases (has_prefix (c ∷ s) sep)) [
  | inl q ↦ ground (arith, has_prefix-drop (c ∷ s) sep)
  | inr q ↦ elim (Option-cases (cut s sep)) [
    | inl n ↦ cc (rw (q, n) at h)
    | inr ((a', b'), e) ↦
        let k : some (c ∷ a', b') ≡ some (a, b) = rw (q, e) at h in cc (k, cut-eq s sep a' b' e)
  ]
]

cut-has_prefix :
    (s sep : Str) → has_prefix s sep ≡ true → cut s sep ≡ some ([], drop (length sep) s)
unfolding cut
cut-has_prefix [] sep h = ground (arith, drop-nil {A = ℕ} (length sep))
cut-has_prefix (c ∷ s) sep h = rw h

-- An occurrence is found, and the front of the one found is no longer than that of any other.
pub cut-first :
    (sep a b : Str)
    → (a' : Str) × (b' : Str) × (cut (a ++ (sep ++ b)) sep ≡ some (a', b')) × (length a' ≤ length a)
unfolding cut
cut-first sep [] b =
    ([], drop (length sep) (sep ++ b), cut-has_prefix _ sep (has_prefix-append sep b), omega arith)
cut-first sep (c ∷ a) b = elim (Bool-cases (has_prefix (c ∷ (a ++ (sep ++ b))) sep)) [
  | inl q ↦ ([], drop (length sep) (c ∷ (a ++ (sep ++ b))), rw q, omega arith)
  | inr q ↦ let (a', b', e, h) = cut-first sep a b in (c ∷ a', b', rw (q, e), omega arith)
]
