-- ===== src/Redact/Sensitive.antt =====
-- No value of a header that a pattern names survives, whatever patterns are added.
use greyproxy.Prelude.{
  ◌≡◌, refl, sym, ap, ◌∙◌, Bool, true, false, List, [], ◌∷◌, ◌==◌, list_eq, if◌then◌else◌, any, In,
  Bool-cases, inl, inr,
}
use greyproxy.Go.Strings.{Str, to_lower, trim_space, any-append}
use greyproxy.Redact.{
  redacted_value, add_pattern, add_extras, new_header_redactor, match_pattern, is_sensitive, Header,
  redact,
}

redact-In :
    (patterns : List Str) (h : Header) (key : Str) (vals : List Str)
    → In (key, vals) (redact patterns h)
    → is_sensitive patterns key ≡ true
    → vals ≡ redacted_value ∷ []
unfolding redact
redact-In patterns [] key vals i s = absurd i
redact-In patterns ((k, v) ∷ h) key vals (inl e) s =
    let k_sensitive : is_sensitive patterns k ≡ true =
      ap (is_sensitive patterns) (ap (λ (x : Str × List Str). x.0) (sym e)) ∙ s in
    ap (λ (x : Str × List Str). x.1) e ∙ rw k_sensitive
redact-In patterns ((k, v) ∷ h) key vals (inr i) s = redact-In patterns h key vals i s

In-redact :
    (patterns : List Str) (h : Header) (key : Str) (vals : List Str)
    → In (key, vals) h
    → is_sensitive patterns key ≡ false
    → In (key, vals) (redact patterns h)
unfolding redact
In-redact patterns [] key vals i s = absurd i
In-redact patterns ((k, v) ∷ h) key vals (inl e) s =
    let k_plain : is_sensitive patterns k ≡ false =
      ap (is_sensitive patterns) (ap (λ (x : Str × List Str). x.0) (sym e)) ∙ s in
    inl (e ∙ rw k_plain)
In-redact patterns ((k, v) ∷ h) key vals (inr i) s = inr (In-redact patterns h key vals i s)

kept-add :
    (patterns : List Str) (low name : Str)
    → is_sensitive patterns name ≡ true
    → is_sensitive (add_pattern patterns low) name ≡ true
unfolding is_sensitive add_pattern
kept-add patterns low name s = elim (Bool-cases (any (λ p. p == low) patterns)) [
  | inl q ↦ rw q s
  | inr q ↦ rw (q, any-append (λ p. match_pattern p (to_lower name)) patterns (low ∷ []), s) refl
]

kept-extras :
    (extra patterns : List Str) (name : Str)
    → is_sensitive patterns name ≡ true
    → is_sensitive (add_extras patterns extra) name ≡ true
unfolding add_extras
kept-extras [] patterns name s = s
kept-extras (p ∷ extra) patterns name s =
    kept-extras extra _ name (one (to_lower (trim_space p) == []))
  where
    one :
        (b : Bool)
        → is_sensitive (if b then patterns else add_pattern patterns (to_lower (trim_space p))) name
          ≡ true
    one true = s
    one false = kept-add patterns (to_lower (trim_space p)) name s

-- Whatever patterns are added to the defaults, in the copy of the headers every value of a header
-- that is sensitive by the defaults is the replacement, and a header that is not sensitive by any of
-- the patterns is there with its values.
pub redact-defaults :
    (extra : List Str) (h : Header) (key : Str) (vals : List Str)
    → (In (key, vals) (redact (new_header_redactor extra) h)
        → is_sensitive (new_header_redactor []) key ≡ true
        → vals ≡ redacted_value ∷ [])
      × (In (key, vals) h
          → is_sensitive (new_header_redactor extra) key ≡ false
          → In (key, vals) (redact (new_header_redactor extra) h))
unfolding new_header_redactor add_extras
redact-defaults extra h key vals = (
  λ i s. redact-In (new_header_redactor extra) h key vals i (kept-extras extra _ key s),
  In-redact (new_header_redactor extra) h key vals,
)
