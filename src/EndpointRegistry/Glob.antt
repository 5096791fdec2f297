-- ===== src/EndpointRegistry/Glob.antt =====
-- The glob patterns against their meaning.
use greyproxy.Prelude.{
  ℕ, suc, ◌<◌, ◌≢◌, ◌≤◌, ◌≡◌, ◌↔◌, refl, sym, ap, subst, ◌∙◌, true, List, [], ◌∷◌, ◌++◌, ◌==◌,
  list_eq, list_eqb_iff, arith, length, length-append, drop, drop-length_append, Bool-cases,
  Option-cases, inl, inr, nat_eq,
}
use greyproxy.Go.Strings.{
  Str, has_prefix, has_prefix-append, has_prefix-drop, has_suffix-append, has_suffix-take, has_char,
  split, split-ne-nil, add_front, split-no_char,
}
use greyproxy.Go.Search.{cut, cut-eq, cut-first}
use greyproxy.EndpointRegistry.{match_glob, match_parts, match_first}

-- A text behind the first part: each part in order, with anything in front of it, and nothing behind
-- the last one.
pub data Fits : List Str → Str → Type 0 where
  last : (gap part : Str) → Fits (part ∷ []) (gap ++ part)
  gapped :
      (gap part next : Str) (parts : List Str) (rest : Str)
      → Fits (next ∷ parts) rest
      → Fits (part ∷ next ∷ parts) (gap ++ (part ++ rest))

append_assoc : (a b c : Str) → (a ++ b) ++ c ≡ a ++ (b ++ c)
append_assoc [] b c = refl
append_assoc (x ∷ a) b c = ap (λ s. x ∷ s) (append_assoc a b c)

-- More text in front only widens the first gap.
widen : (y : Str) (parts : List Str) (s : Str) → Fits parts s → Fits parts (y ++ s)
widen y _ _ (last gap part) =
    subst (Fits (part ∷ [])) (append_assoc y gap part) (last (y ++ gap) part)
widen y _ _ (gapped gap part next parts rest f) =
    subst (Fits (part ∷ next ∷ parts)) (append_assoc y gap (part ++ rest))
      (gapped (y ++ gap) part next parts rest f)

tail_eq : {c d : ℕ} {s t : Str} → c ∷ s ≡ d ∷ t → s ≡ t
tail_eq e = cc

suffixes : (u v y b : Str) → u ++ y ≡ v ++ b → length u ≤ length v → (z : Str) × (y ≡ z ++ b)
suffixes [] v y b e h = (v, e)
suffixes (c ∷ u) [] y b e h = absurd (omega (arith, h))
suffixes (c ∷ u) (d ∷ v) y b e h = suffixes u v y b (tail_eq e) (omega (arith, h))

-- The rest behind an earlier occurrence ends with the rest behind a later one.
longer_rest :
    (a sep b x y : Str)
    → a ++ (sep ++ b) ≡ x ++ (sep ++ y)
    → length x ≤ length a
    → (z : Str) × (y ≡ z ++ b)
longer_rest a sep b x y e h =
    suffixes (x ++ sep) (a ++ sep) y b (append_assoc x sep y ∙ sym e ∙ sym (append_assoc a sep b))
      (omega (arith, h, length-append x sep, length-append a sep))

Fits-match : (parts : List Str) (s : Str) → Fits parts s → match_parts parts s ≡ true
unfolding match_parts
Fits-match [] s f = elim f [ ]
Fits-match (part ∷ []) _ (last gap _) = has_suffix-append gap part
Fits-match (part ∷ next ∷ parts) _ (gapped gap _ _ _ rest f) =
    let (a, b, e, h) = cut-first part gap rest in
    let (z, w) = longer_rest gap part rest a b (cut-eq _ part a b e) h in
    rw e (rw w (Fits-match (next ∷ parts) (z ++ rest) (widen z (next ∷ parts) rest f)))

match-Fits :
    (part : Str) (parts : List Str) (s : Str)
    → match_parts (part ∷ parts) s ≡ true
    → Fits (part ∷ parts) s
unfolding match_parts
match-Fits part [] s h = subst (Fits (part ∷ [])) (sym (has_suffix-take s part h)) (last _ part)
match-Fits part (next ∷ parts) s h = elim (Option-cases (cut s part)) [
  | inl n ↦ cc (rw n at h)
  | inr ((a, b), e) ↦
      subst (Fits (part ∷ next ∷ parts)) (sym (cut-eq s part a b e))
        (gapped a part next parts b (match-Fits next parts b (rw e at h)))
]

-- The meaning of a pattern: without `*`, the text itself; else the text begins with the part in front
-- of the first `*`, and the other parts follow it.
abbrev pub Matches : List Str → Str → Type 0
Matches [] s = ⊥
Matches (part ∷ []) s = s ≡ part
Matches (part ∷ next ∷ parts) s = (rest : Str) × (s ≡ part ++ rest) × Fits (next ∷ parts) rest

first_iff :
    (parts : List Str) (s : Str) → 1 < length parts → (match_first parts s ≡ true) ↔ Matches parts s
first_iff [] s h = absurd (omega (arith, h))
first_iff (part ∷ []) s h = absurd (omega (arith, h))
first_iff (part ∷ next ∷ parts) s h = (
  λ m. elim (Bool-cases (has_prefix s part)) [
    | inr q ↦ cc (rw q at m)
    | inl q ↦ (
      drop (length part) s,
      has_prefix-drop s part q,
      match-Fits next parts (drop (length part) s) (rw q at m),
    )
  ],
  λ (rest, e, f).
      rw (e, has_prefix-append part rest, drop-length_append part rest)
        (Fits-match (next ∷ parts) rest f),
)

split-starred : (k : ℕ) (s : Str) → has_char k s ≡ true → 1 < length (split k s)
unfolding split has_char
split-starred k [] h = cc
split-starred k (c ∷ s) h = elim (Bool-cases (c == k)) [
  | inl q ↦ rw q (nonempty (split k s) (split-ne-nil k s))
  | inr q ↦ rw q (longer c (split k s) (split-starred k s (ground arith)))
]
  where
    nonempty : (ps : List Str) → ps ≢ [] → 1 < suc (length ps)
    nonempty [] n = absurd (n refl)
    nonempty (p ∷ ps) n = omega arith

    longer : (c : ℕ) (ps : List Str) → 1 < length ps → 1 < length (add_front c ps)
    longer c [] h = absurd (omega (arith, h))
    longer c (p ∷ ps) h = h

-- The texts that matchGlob accepts are those that the parts of the pattern gapped its `*` spell,
-- with any text in the place of each `*`.
pub match_glob_iff :
    (pattern s : Str) → (match_glob pattern s ≡ true) ↔ Matches (split b'*' pattern) s
unfolding match_glob
match_glob_iff pattern s = elim (Bool-cases (has_char b'*' pattern)) [
  | inr plain ↦
      rw (plain, split-no_char b'*' pattern plain)
        (λ h. sym ((list_eqb_iff pattern s).0 h), λ e. (list_eqb_iff pattern s).1 (sym e))
  | inl starred ↦ rw starred (first_iff (split b'*' pattern) s (split-starred b'*' pattern starred))
]
