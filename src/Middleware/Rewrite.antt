-- ===== src/Middleware/Rewrite.antt =====
-- What a rewrite by a middleware cannot do.
use greyproxy.Prelude.{
  ◌≡◌, refl, ap, ◌∙◌, Bool, true, false, not, Option, List, [], ◌∷◌, ◌==◌, list_eq, list_eqb_iff,
  arith, if◌then◌else◌, keep, Bool-cases, inl, inr, All, All-append,
}
use greyproxy.Go.Strings.{Str}
use greyproxy.Middleware.{
  Header, Merged, canonical_header_key, is_forbidden, values_of, set_values, merge_header,
  merge_rewrite_headers,
}

values_of-remove :
    (key other : Str) (h : Header)
    → (key == other) ≡ false
    → values_of other (keep (λ (k, w). not (k == key)) h) ≡ values_of other h
unfolding values_of keep
values_of-remove key other [] n = refl
values_of-remove key other ((k, v) ∷ h) n = elim (Bool-cases (k == key)) [
  | inl q ↦
      let apart : (k == other) ≡ false = rw ((list_eqb_iff k key).0 q) n in
      ground (arith, q, apart, values_of-remove key other h n)
  | inr q ↦ ground (arith, q, values_of-remove key other h n)
]

values_of-set :
    (key other : Str) (v : List Str) (h : Header)
    → (key == other) ≡ false
    → values_of other (set_values key v h) ≡ values_of other h
unfolding values_of set_values
values_of-set key other v h n = rw n (values_of-remove key other h n)

-- A forbidden key is not the one that is written.
apart_key :
    (key other : Str)
    → is_forbidden key ≡ false
    → is_forbidden other ≡ true
    → (key == other) ≡ false
apart_key key other k o = elim (Bool-cases (key == other)) [
  | inr q ↦ q
  | inl q ↦ cc (k, o, ap is_forbidden ((list_eqb_iff key other).0 q))
]

either_merged :
    (P : Merged → Type 0) (b : Bool) (x y : Merged)
    → P x
    → (b ≡ false → P y)
    → P (if b then x else y)
either_merged P true x y p q = p
either_merged P false x y p q = q refl

-- The key has the values, and no forbidden name is reported as applied.
abbrev IsSafe : Str → Option (List Str) → Merged → Type 0
IsSafe key values m = (values_of key m.dst ≡ values) × All (λ k. is_forbidden k ≡ false) m.applied

merge_header-IsSafe :
    (canonical : Str) (v : List Str) (m : Merged) (key : Str) (values : Option (List Str))
    → is_forbidden key ≡ true
    → IsSafe key values m
    → IsSafe key values (merge_header canonical v m)
unfolding merge_header
merge_header-IsSafe canonical v m key values f s =
    either_merged (IsSafe key values) (is_forbidden canonical) _ _ s λ q. (
      values_of-set canonical key v m.dst (apart_key canonical key q f) ∙ s.0,
      All-append _ m.applied _ s.1 (q, tt),
    )

-- Whatever headers a middleware sends, in whatever order, the values of the forbidden headers stay as
-- they were; and if none of the names reported as applied was forbidden before, none is after.
pub merge_rewrite_headers-forbidden :
    (src : Header) (m : Merged) (key : Str)
    → is_forbidden key ≡ true
    → All (λ k. is_forbidden k ≡ false) m.applied
    → (values_of key (merge_rewrite_headers src m).dst ≡ values_of key m.dst)
      × All (λ k. is_forbidden k ≡ false) (merge_rewrite_headers src m).applied
unfolding merge_rewrite_headers
merge_rewrite_headers-forbidden src m key f a = go src m (refl, a)
  where
    go :
        (src : Header) (n : Merged)
        → IsSafe key (values_of key m.dst) n
        → IsSafe key (values_of key m.dst) (merge_rewrite_headers src n)
    go [] n s = s
    go ((k, v) ∷ src) n s =
        go src (merge_header (canonical_header_key k) v n)
          (merge_header-IsSafe (canonical_header_key k) v n key _ f s)
