-- ===== src/Transactions/Prefix.antt =====
-- The updates of RedactExistingTransactionHeaders, row by row and batch by batch.
use greyproxy.Prelude.{
  ℕ, zero, suc, ◌+◌, ◌≡◌, refl, sym, ap, ap₂, ◌∙◌, true, false, ◌||◌, Option, List, [], ◌∷◌, map,
  ◌==◌, nat_eq, list_eq, if◌then◌else◌, arith, keep, length, take, drop, All, Pairs, All-In, In,
  keep-In, Bool-cases, inl, inr,
}
use greyproxy.Go.Strings.{Str}
use greyproxy.Redact.{Header}
use greyproxy.Transactions.{HttpTransaction}
use greyproxy.Transactions.Maintenance.{has_headers, write_headers, redact_batch}
use greyproxy.Transactions.Rows.{
  Differ, drop-In, redacted-same, redacted-has, none-same, map-write_other, write-other, write_self,
  redacted, write, json,
}

module _ (decode : Str → Option Header) (encode : Header → Str) (patterns : List Str) where
  -- The first rows with headers are redacted decode encode patterns, the others as they were.
  unfoldable pub redact_first : ℕ → List HttpTransaction → List HttpTransaction
  redact_first zero ts = ts
  redact_first (suc k) [] = []
  redact_first (suc k) (t ∷ ts) =
      let done = redact_first k ts in
      let later = redact_first (suc k) ts in
      if has_headers t then redacted decode encode patterns t ∷ done else t ∷ later

  first-with :
      (k : ℕ) (t : HttpTransaction) (ts : List HttpTransaction)
      → has_headers t ≡ true
      → redact_first (suc k) (t ∷ ts) ≡ redacted decode encode patterns t ∷ redact_first k ts
  unfolding redact_first
  first-with k t ts h = rw h

  first-without :
      (k : ℕ) (t : HttpTransaction) (ts : List HttpTransaction)
      → has_headers t ≡ false
      → redact_first (suc k) (t ∷ ts) ≡ t ∷ redact_first (suc k) ts
  unfolding redact_first
  first-without k t ts h = rw h

  keep-with :
      (t : HttpTransaction) (ts : List HttpTransaction)
      → has_headers t ≡ true
      → keep has_headers (t ∷ ts) ≡ t ∷ keep has_headers ts
  unfolding keep
  keep-with t ts h = rw h

  keep-without :
      (t : HttpTransaction) (ts : List HttpTransaction)
      → has_headers t ≡ false
      → keep has_headers (t ∷ ts) ≡ keep has_headers ts
  unfolding keep
  keep-without t ts h = rw h

  -- The rows that are still to come are read as they were.
  pub keep-redact_first :
      (k : ℕ) (ts : List HttpTransaction)
      → drop k (keep has_headers (redact_first k ts)) ≡ drop k (keep has_headers ts)
  unfolding redact_first
  keep-redact_first zero ts = refl
  keep-redact_first (suc k) [] = refl
  keep-redact_first (suc k) (t ∷ ts) = elim (Bool-cases (has_headers t)) [
    | inl h ↦
        ap (λ us. drop (suc k) (keep has_headers us)) (first-with k t ts h)
        ∙ ap (drop (suc k)) (
            keep-with (redacted decode encode patterns t) (redact_first k ts)
              (redacted-has decode encode patterns t ∙ h))
        ∙ keep-redact_first k ts
        ∙ sym (ap (drop (suc k)) (keep-with t ts h))
    | inr h ↦
        ap (λ us. drop (suc k) (keep has_headers us)) (first-without k t ts h)
        ∙ ap (drop (suc k)) (keep-without t (redact_first (suc k) ts) h)
        ∙ keep-redact_first (suc k) ts
        ∙ sym (ap (drop (suc k)) (keep-without t ts h))
  ]

  next-Differs :
      (k : ℕ) (ts rs : List HttpTransaction) (t r : HttpTransaction)
      → All (Differ t) ts
      → drop k (keep has_headers ts) ≡ r ∷ rs
      → (t.id == r.id) ≡ false
  next-Differs k ts rs t r d e =
      let i : In r (keep has_headers ts) = drop-In k (keep has_headers ts) r (rw e (inl refl)) in
      let apart = All-In (Differ t) ts d (keep-In has_headers r ts i).0 in ground (arith, apart)

  -- The update of the next row with headers.
  write-next :
      (k : ℕ) (ts rs : List HttpTransaction) (r : HttpTransaction)
      → Pairs Differ ts
      → drop k (keep has_headers ts) ≡ r ∷ rs
      → map (write decode encode patterns r) (redact_first k ts) ≡ redact_first (suc k) ts
  unfolding redact_first keep
  write-next zero [] rs r d e = cc
  write-next (suc k) [] rs r d e = cc
  write-next zero (t ∷ ts) rs r d e = elim (Bool-cases (has_headers t)) [
    | inl h ↦
        let l : t ∷ keep has_headers ts ≡ r ∷ rs = sym (keep-with t ts h) ∙ e in
        let same : r ≡ t = cc in
        ap₂ ◌∷◌
          (ap (λ q. write decode encode patterns q t) same ∙ write_self decode encode patterns t)
          (ap (λ q. map (write decode encode patterns q) ts) same
            ∙ map-write_other decode encode patterns t ts d.0)
        ∙ sym (first-with zero t ts h)
    | inr h ↦
        let l = sym (keep-without t ts h) ∙ e in
        ap₂ ◌∷◌ (write-other decode encode patterns r t (next-Differs zero ts rs t r d.0 l))
          (write-next zero ts rs r d.1 l)
        ∙ sym (first-without zero t ts h)
  ]
  write-next (suc k) (t ∷ ts) rs r d e = elim (Bool-cases (has_headers t)) [
    | inl h ↦
        let l = sym (ap (drop (suc k)) (keep-with t ts h)) ∙ e in
        ap (map (write decode encode patterns r)) (first-with k t ts h)
        ∙ ap₂ ◌∷◌
            (write-other decode encode patterns r (redacted decode encode patterns t)
              (next-Differs k ts rs t r d.0 l))
            (write-next k ts rs r d.1 l)
        ∙ sym (first-with (suc k) t ts h)
    | inr h ↦
        let l = sym (ap (drop (suc k)) (keep-without t ts h)) ∙ e in
        ap (map (write decode encode patterns r)) (first-without k t ts h)
        ∙ ap₂ ◌∷◌ (write-other decode encode patterns r t (next-Differs (suc k) ts rs t r d.0 l))
            (write-next (suc k) ts rs r d.1 l)
        ∙ sym (first-without (suc k) t ts h)
  ]

  -- A row that stays as it is counts as redacted decode encode patterns.
  next-unchanged :
      (k : ℕ) (ts rs : List HttpTransaction) (r : HttpTransaction)
      → redacted decode encode patterns r ≡ r
      → drop k (keep has_headers ts) ≡ r ∷ rs
      → redact_first k ts ≡ redact_first (suc k) ts
  unfolding redact_first keep
  next-unchanged zero [] rs r d e = cc
  next-unchanged (suc k) [] rs r d e = cc
  next-unchanged zero (t ∷ ts) rs r d e = elim (Bool-cases (has_headers t)) [
    | inl h ↦
        let l : t ∷ keep has_headers ts ≡ r ∷ rs = sym (keep-with t ts h) ∙ e in
        let same : r ≡ t = cc in
        ap (λ q. q ∷ ts) (sym same ∙ sym d ∙ ap (redacted decode encode patterns) same)
        ∙ sym (first-with zero t ts h)
    | inr h ↦
        ap (λ us. t ∷ us) (next-unchanged zero ts rs r d (sym (keep-without t ts h) ∙ e))
        ∙ sym (first-without zero t ts h)
  ]
  next-unchanged (suc k) (t ∷ ts) rs r d e = elim (Bool-cases (has_headers t)) [
    | inl h ↦
        first-with k t ts h
        ∙ ap (λ us. redacted decode encode patterns t ∷ us)
            (next-unchanged k ts rs r d (sym (ap (drop (suc k)) (keep-with t ts h)) ∙ e))
        ∙ sym (first-with (suc k) t ts h)
    | inr h ↦
        first-without k t ts h
        ∙ ap (λ us. t ∷ us)
            (next-unchanged (suc k) ts rs r d (sym (ap (drop (suc k)) (keep-without t ts h)) ∙ e))
        ∙ sym (first-without (suc k) t ts h)
  ]

  write_headers-next :
      (k : ℕ) (ts rs : List HttpTransaction) (r : HttpTransaction)
      → Pairs Differ ts
      → drop k (keep has_headers ts) ≡ r ∷ rs
      → write_headers decode encode patterns r (redact_first k ts) ≡ redact_first (suc k) ts
  unfolding write_headers
  write_headers-next k ts rs r d e =
      elim (Bool-cases (
        (json decode encode patterns r.request_headers).1
        || (json decode encode patterns r.response_headers).1)) [
          | inl c ↦ rw c (write-next k ts rs r d e)
          | inr n ↦ rw n (
              next-unchanged k ts rs r
                (redacted-same decode encode patterns r (ground (arith, n)) (ground (arith, n))) e)
        ]

  drop-next :
      (k : ℕ) (xs ys : List HttpTransaction) (y : HttpTransaction)
      → drop k xs ≡ y ∷ ys
      → drop (suc k) xs ≡ ys
  drop-next zero [] ys y e = cc
  drop-next zero (x ∷ xs) ys y e = cc
  drop-next (suc k) [] ys y e = cc
  drop-next (suc k) (x ∷ xs) ys y e = drop-next k xs ys y e

  pub redact_batch-first :
      (n k : ℕ) (ts rest : List HttpTransaction)
      → Pairs Differ ts
      → drop k (keep has_headers ts) ≡ rest
      → redact_batch decode encode patterns (take n rest) (redact_first k ts)
        ≡ redact_first (k + length (take n rest)) ts
  unfolding redact_batch
  redact_batch-first zero k ts [] d e =
      let p : k ≡ k + 0 = omega arith in ap (λ m. redact_first m ts) p
  redact_batch-first zero k ts (r ∷ rs) d e =
      let p : k ≡ k + 0 = omega arith in ap (λ m. redact_first m ts) p
  redact_batch-first (suc n) k ts [] d e =
      let p : k ≡ k + 0 = omega arith in ap (λ m. redact_first m ts) p
  redact_batch-first (suc n) k ts (r ∷ rs) d e =
      let p : suc k + length (take n rs) ≡ k + suc (length (take n rs)) = omega arith in
      ap (redact_batch decode encode patterns (take n rs)) (write_headers-next k ts rs r d e)
      ∙ redact_batch-first n (suc k) ts rs d (drop-next k (keep has_headers ts) rs r e)
      ∙ ap (λ m. redact_first m ts) p

  pub all-redacted :
      (ts : List HttpTransaction)
      → redact_first (length (keep has_headers ts)) ts ≡ map (redacted decode encode patterns) ts
  unfolding redact_first keep
  all-redacted [] = refl
  all-redacted (t ∷ ts) = elim (Bool-cases (has_headers t)) [
    | inl h ↦
        ap (λ us. redact_first (length us) (t ∷ ts)) (keep-with t ts h)
        ∙ first-with (length (keep has_headers ts)) t ts h
        ∙ ap (λ us. redacted decode encode patterns t ∷ us) (all-redacted ts)
    | inr h ↦
        ap (λ us. redact_first (length us) (t ∷ ts)) (keep-without t ts h)
        ∙ skipped (length (keep has_headers ts)) h
        ∙ ap₂ ◌∷◌ (sym (none-same decode encode patterns t h)) (all-redacted ts)
  ]
    where
      skipped : (m : ℕ) → has_headers t ≡ false → redact_first m (t ∷ ts) ≡ t ∷ redact_first m ts
      skipped zero h = refl
      skipped (suc m) h = first-without m t ts h
