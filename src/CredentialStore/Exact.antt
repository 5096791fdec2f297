-- ===== src/CredentialStore/Exact.antt =====
-- What SubstituteRequest makes of the values of a request, whatever the order of the range.
use greyproxy.Prelude.{
  ℕ, ◌+◌, ◌≡◌, refl, sym, ap, ◌∙◌, true, false, some, List, [], ◌∷◌, ◌++◌, map, ◌==◌, list_eq,
  arith, if◌then◌else◌, All, Bool-cases, ◌⊎◌, inl, inr, ==_refl, ap₂, list_eqb_iff, length, drop,
}
use mathlib.Core.List.{append_assoc}
use greyproxy.Go.Strings.{Str, has_prefix, has_prefix-drop}
use greyproxy.Go.Search.{cut, contains, cut-eq, cut-first}
use greyproxy.Go.Search.Replace.{replace_all-cut, replace_all-none}
use greyproxy.CredentialStore.{CredentialStore}
use greyproxy.CredentialStore.Substitution.{
  placeholder_prefix, SubstitutionResult, no_substitution, note_used, replace_entries,
  replace_in_string, substitute_value, substitute_values, substitute_all, Values, Request,
  substitute_request, counted, is_empty,
}

abbrev Absent : Str → Str × Str → Type 0
Absent v entry = contains v entry.0 ≡ false

-- What a value should become: it holds no placeholder and stays; or it holds one, once, and the real
-- value takes its place. The entries in front are those that the range takes before.
pub data Becomes (cs : CredentialStore) : Str → Str → Type 0 where
  stays : (v : Str) → All (Absent v) cs.lookup → Becomes cs v v
  replaced :
      (v w pre post placeholder real : Str) (front back : List (Str × Str))
      → cs.lookup ≡ front ++ (placeholder, real) ∷ back
      → has_prefix placeholder placeholder_prefix ≡ true
      → cut v placeholder ≡ some (pre, post)
      → contains post placeholder ≡ false
      → w ≡ pre ++ (real ++ post)
      → All (Absent v) front
      → All (Absent w) back
      → Becomes cs v w

replace_entries-Absent :
    (cs : CredentialStore) (entries : List (Str × Str)) (v : Str) (r : SubstitutionResult)
    → All (Absent v) entries
    → replace_entries cs entries (v, r) ≡ (v, r)
unfolding replace_entries
replace_entries-Absent cs [] v r h = refl
replace_entries-Absent cs ((p, real) ∷ entries) v r h =
    rw (h.0, replace_entries) (replace_entries-Absent cs entries v r h.1)

replace_entries-front :
    (cs : CredentialStore) (front rest : List (Str × Str)) (v : Str) (r : SubstitutionResult)
    → All (Absent v) front
    → replace_entries cs (front ++ rest) (v, r) ≡ replace_entries cs rest (v, r)
unfolding replace_entries
replace_entries-front cs [] rest v r h = refl
replace_entries-front cs ((p, real) ∷ front) rest v r h =
    rw (h.0, replace_entries) (replace_entries-front cs front rest v r h.1)

not_nil : (p : Str) → has_prefix p placeholder_prefix ≡ true → p ≡ [] → ⊥
unfolding has_prefix
not_nil p h e = cc (rw e at h)

contains-cut : (v sep a b : Str) → cut v sep ≡ some (a, b) → contains v sep ≡ true
unfolding contains
contains-cut v sep a b h = rw h

-- A value with a placeholder passes the test for what placeholders begin with.
contains-start :
    (start v p pre post : Str)
    → has_prefix p start ≡ true
    → cut v p ≡ some (pre, post)
    → contains v start ≡ true
contains-start start v p pre post h c =
    let tail = drop (length start) p in
    let e : v ≡ pre ++ (start ++ (tail ++ post)) =
      cut-eq v p pre post c
      ∙ ap (λ t. pre ++ (t ++ post)) (has_prefix-drop p start h)
      ∙ ap (λ t. pre ++ t) (append_assoc start tail post) in
    let (a, b, found, shorter) = cut-first start pre (tail ++ post) in
    rw e (contains-cut _ start a b found)

replace_in_string-Becomes :
    (cs : CredentialStore) (v w : Str) (r : SubstitutionResult)
    → Becomes cs v w
    → ((replace_in_string cs v r).0 ≡ w) × ((replace_in_string cs v r).1.count ≡ r.count)
unfolding replace_in_string note_used
replace_in_string-Becomes cs v w r (stays _ h) =
    rw (replace_entries-Absent cs cs.lookup v r h) (refl, refl)
replace_in_string-Becomes cs v w r (replaced _ _ pre post p real front back l f c once e hf hb) =
    let one : replace_entries cs cs.lookup (v, r) ≡ (w, note_used cs p r) =
      ap (λ es. replace_entries cs es (v, r)) l
      ∙ replace_entries-front cs front ((p, real) ∷ back) v r hf
      ∙ rw (contains-cut v p pre post c, replace_entries)
          (ap (λ s. replace_entries cs back (s, note_used cs p r))
              (replace_all-cut v p real pre post c (not_nil p f)
                ∙ rw (replace_all-none post p real once) (sym e))
            ∙ replace_entries-Absent cs back w (note_used cs p r) hb) in
    rw one (refl, refl)

abbrev changed : Str → Str → ℕ
changed v w = if w == v then 0 else 1

counted_lem :
    (v w : Str) (x : Str × SubstitutionResult) (n : ℕ)
    → x.0 ≡ w
    → x.1.count ≡ n
    → ((counted v x).0 ≡ w) × ((counted v x).1.count ≡ n + changed v w)
counted_lem v w x n e c = elim (Bool-cases (x.0 == v)) [
  | inl q ↦
      let same : (w == v) ≡ true = rw (← e) q in
      rw (q, same) (sym ((list_eqb_iff x.0 v).0 q) ∙ e, omega (arith, c))
  | inr q ↦ let differs : (w == v) ≡ false = rw (← e) q in rw (q, differs) (e, omega (arith, c))
]

same_count : (n : ℕ) (v w : Str) → w ≡ v → n ≡ n + changed v w
same_count n v w e = rw (e, ==_refl v) (omega arith)

-- What holds no placeholder is not touched.
stays_without :
    (cs : CredentialStore) (v w : Str)
    → Becomes cs v w
    → contains v placeholder_prefix ≡ false
    → w ≡ v
stays_without cs v w (stays _ h) n = refl
stays_without cs v w (replaced _ _ pre post p real front back l f c once e hf hb) n =
    cc (n, contains-start placeholder_prefix v p pre post f c)

abbrev Counts : SubstitutionResult → ℕ → SubstitutionResult → Type 0
Counts r n r' = r'.count ≡ r.count + n

substitute_value-Becomes :
    (cs : CredentialStore) (v w : Str) (r : SubstitutionResult)
    → Becomes cs v w
    → ((substitute_value cs v r).0 ≡ w) × Counts r (changed v w) (substitute_value cs v r).1
unfolding substitute_value
substitute_value-Becomes cs v w r b = elim (Bool-cases (contains v placeholder_prefix)) [
  | inl q ↦
      let (e, c) = replace_in_string-Becomes cs v w r b in
      rw q (counted_lem v w (replace_in_string cs v r) r.count e c)
  | inr q ↦ let e = stays_without cs v w b q in rw q (sym e, same_count r.count v w e)
]

stays_empty : (cs : CredentialStore) (v w : Str) → cs.lookup ≡ [] → Becomes cs v w → w ≡ v
stays_empty cs v w n (stays _ h) = refl
stays_empty cs v w n (replaced _ _ pre post p real front back l f c once e hf hb) =
    absurd (front_ne front (sym l ∙ n))
  where
    front_ne : (front : List (Str × Str)) → front ++ (p, real) ∷ back ≡ [] → ⊥
    front_ne [] h = cc
    front_ne (x ∷ xs) h = cc

empty-cases : (es : List (Str × Str)) → (es ≡ []) ⊎ (is_empty es ≡ false)
empty-cases [] = inl refl
empty-cases (x ∷ xs) = inr refl

-- The values of a header or of a query, each of which becomes what `wanted` says.
module _ (cs : CredentialStore) (wanted : Str → Str) where
  abbrev pub AllBecome : List Str → Type 0
  AllBecome vs = All (λ v. Becomes cs v (wanted v)) vs

  abbrev pub rewritten : Values → Values
  rewritten h = map (λ (key, vs). (key, map wanted vs)) h

  abbrev pub changes_in : List Str → ℕ
  changes_in [] = 0
  changes_in (v ∷ vs) = changed v (wanted v) + changes_in vs

  abbrev pub changes : Values → ℕ
  changes [] = 0
  changes ((key, vs) ∷ h) = changes_in vs + changes h

  substitute_values-Becomes :
      (vs : List Str) (r : SubstitutionResult)
      → AllBecome vs
      → ((substitute_values cs vs r).0 ≡ map wanted vs)
        × Counts r (changes_in vs) (substitute_values cs vs r).1
  unfolding substitute_values
  substitute_values-Becomes [] r h = (refl, omega arith)
  substitute_values-Becomes (v ∷ vs) r h =
      let (e, c) = substitute_value-Becomes cs v (wanted v) r h.0 in
      let (es, ces) = substitute_values-Becomes vs (substitute_value cs v r).1 h.1 in
      (ap₂ ◌∷◌ e es, omega (arith, c, ces))

  substitute_all-Becomes :
      (h : Values) (r : SubstitutionResult)
      → All (λ e. AllBecome e.1) h
      → ((substitute_all cs h r).0 ≡ rewritten h) × Counts r (changes h) (substitute_all cs h r).1
  unfolding substitute_all
  substitute_all-Becomes [] r b = (refl, omega arith)
  substitute_all-Becomes ((key, vs) ∷ h) r b =
      let (e, c) = substitute_values-Becomes vs r b.0 in
      let (es, ces) = substitute_all-Becomes h (substitute_values cs vs r).1 b.1 in
      (ap₂ ◌∷◌ (ap (λ w. (key, w)) e) es, omega (arith, c, ces))

  -- An empty store changes nothing.
  idle_values :
      (vs : List Str) → cs.lookup ≡ [] → AllBecome vs → (map wanted vs ≡ vs) × (changes_in vs ≡ 0)
  idle_values [] n h = (refl, refl)
  idle_values (v ∷ vs) n h =
      let e = stays_empty cs v (wanted v) n h.0 in
      let (es, c) = idle_values vs n h.1 in
      (ap₂ ◌∷◌ e es, omega (arith, c, same_count 0 v (wanted v) e))

  idle :
      (h : Values)
      → cs.lookup ≡ []
      → All (λ e. AllBecome e.1) h
      → (rewritten h ≡ h) × (changes h ≡ 0)
  idle [] n b = (refl, refl)
  idle ((key, vs) ∷ h) n b =
      let (e, c) = idle_values vs n b.0 in
      let (es, ces) = idle h n b.1 in (ap₂ ◌∷◌ (ap (λ w. (key, w)) e) es, omega (arith, c, ces))

  pub substitute_request-rewritten :
      (req : Request)
      → All (λ e. AllBecome e.1) req.header
      → All (λ e. AllBecome e.1) req.query
      → ((substitute_request cs req).0
          ≡ record { header = rewritten req.header; query = rewritten req.query })
        × ((substitute_request cs req).1.count ≡ changes req.header + changes req.query)
  unfolding substitute_request
  substitute_request-rewritten req hb qb = elim (empty-cases cs.lookup) [
    | inl n ↦
        let (eh, ch) = idle req.header n hb in
        let (eq, cq) = idle req.query n qb in
        (
          rw n (sym (ap₂ (λ h q. record { header = h; query = q }) eh eq)),
          rw n (omega (arith, ch, cq)),
        )
    | inr n ↦
        let (eh, ch) = substitute_all-Becomes req.header no_substitution hb in
        let (eq, cq) =
          substitute_all-Becomes req.query (substitute_all cs req.header no_substitution).1 qb in
        (rw n (ap₂ (λ h q. record { header = h; query = q }) eh eq), rw n (omega (arith, ch, cq)))
  ]
