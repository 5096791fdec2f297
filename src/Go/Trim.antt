-- ===== src/Go/Trim.antt =====
-- Package strings: what trimming leaves of a text whose ends are known.
use greyproxy.Prelude.{ℕ, ◌≡◌, refl, Bool, true, false, [], ◌∷◌, ◌++◌, arith}
use greyproxy.Go.Strings.{Str, trim_right}

-- The text ends in a character that is not trimmed.
abbrev pub EndsOutside : (ℕ → Bool) → Str → Type 0
EndsOutside f s = (t : Str) × (c : ℕ) × (s ≡ t ++ c ∷ []) × (f c ≡ false)

trim_right-snoc :
    (f : ℕ → Bool) (t : Str) (c : ℕ) → f c ≡ false → trim_right f (t ++ c ∷ []) ≡ t ++ c ∷ []
unfolding trim_right
trim_right-snoc f [] c h = rw h
trim_right-snoc f (x ∷ []) c h = rw (trim_right-snoc f [] c h, trim_right)
trim_right-snoc f (x ∷ y ∷ t) c h = rw (trim_right-snoc f (y ∷ t) c h, trim_right)

pub trim_right_none : (f : ℕ → Bool) (s : Str) → EndsOutside f s → trim_right f s ≡ s
trim_right_none f s (t, c, e, h) = rw e (trim_right-snoc f t c h)

pub trim_right-two :
    (f : ℕ → Bool) (s : Str) (a b : ℕ)
    → f a ≡ true
    → f b ≡ true
    → trim_right f (s ++ a ∷ b ∷ []) ≡ trim_right f s
unfolding trim_right
trim_right-two f [] a b ha hb = ground arith
trim_right-two f (x ∷ s) a b ha hb = rw (trim_right-two f s a b ha hb, trim_right) refl
