-- ===== src/Transactions/Batches.antt =====
-- The loop of RedactExistingTransactionHeaders over its batches.
use greyproxy.Prelude.{
  ℕ, zero, suc, ◌+◌, ◌-◌, ◌<◌, ◌≤◌, ◌≡◌, refl, ap, ◌∙◌, Bool, true, false, Option, none, some, List,
  [], ◌∷◌, map, ltb, ◌==◌, nat_eq, list_eq, arith, keep, length, take, drop, All, Pairs, Bool-cases,
  Option-cases, inl, inr, any, ◌⊎◌, ==_refl, length-drop,
}
use greyproxy.Go.Strings.{Str}
use greyproxy.Redact.{Header, redact, redacted_value, is_sensitive}
use greyproxy.Transactions.{HttpTransaction}
use greyproxy.Transactions.Maintenance.{
  has_headers, redact_header_json, redact_batches, batch_size, leaks,
  redact_existing_transaction_headers,
}
use greyproxy.Transactions.Rows.{Differ, redacted}
use greyproxy.Transactions.Prefix.{
  redact_first, keep-redact_first, redact_batch-first, all-redacted,
}

ltb→lt : (a b : ℕ) → ltb a b ≡ true → a < b
ltb→lt a b h = ground arith

ltb→ge : (a b : ℕ) → ltb a b ≡ false → b ≤ a
ltb→ge a b h = ground arith

length-keep :
    (p : HttpTransaction → Bool) (ts : List HttpTransaction) → length (keep p ts) ≤ length ts
unfolding keep
length-keep p [] = omega arith
length-keep p (t ∷ ts) = ground (arith, length-keep p ts)

length-take : (n : ℕ) (ts : List HttpTransaction) → length (take n ts) ≤ length ts
length-take zero ts = omega arith
length-take (suc n) [] = omega arith
length-take (suc n) (t ∷ ts) = omega (arith, length-take n ts)

-- A batch that is not full is all that is left.
take-rest :
    (n : ℕ) (ts : List HttpTransaction) → length (take n ts) < n → length (take n ts) ≡ length ts
take-rest zero ts h = omega (arith, h)
take-rest (suc n) [] h = refl
take-rest (suc n) (t ∷ ts) h = let e = take-rest n ts (omega (arith, h)) in omega (arith, e)

module _ (decode : Str → Option Header) (encode : Header → Str) (patterns : List Str) where
  abbrev first_rows : ℕ → List HttpTransaction → List HttpTransaction
  first_rows k ts = redact_first decode encode patterns k ts

  redact_batches-all :
      (fuel k : ℕ) (ts : List HttpTransaction)
      → Pairs Differ ts
      → k ≤ length (keep has_headers ts)
      → length (keep has_headers ts) < fuel + k
      → redact_batches decode encode patterns fuel k (first_rows k ts)
        ≡ some (first_rows (length (keep has_headers ts)) ts, length (keep has_headers ts))
  unfolding redact_batches
  redact_batches-all zero k ts d le lt = absurd (omega (arith, le, lt))
  redact_batches-all (suc fuel) k ts d le lt =
      let rest = drop k (keep has_headers ts) in
      let m = length (take batch_size rest) in
      let left : length rest ≡ length (keep has_headers ts) - k =
        length-drop k (keep has_headers ts) in
      rw
        (
          keep-redact_first decode encode patterns k ts,
          redact_batch-first decode encode patterns batch_size k ts rest d refl,
        )
        (elim (Bool-cases (ltb m batch_size)) [
          | inl short ↦
              let less : m < batch_size = ltb→lt m batch_size short in
              let all : k + m ≡ length (keep has_headers ts) =
                omega (arith, take-rest batch_size rest less, left, le) in
              rw short (ap (λ n. some (first_rows n ts, n)) all)
          | inr full ↦
              let more : batch_size ≤ m = ltb→ge m batch_size full in
              let within : k + m ≤ length (keep has_headers ts) =
                omega (arith, length-take batch_size rest, left, le) in
              rw full (redact_batches-all fuel (k + m) ts d within (omega (arith, more, lt)))
        ])

  leaks-redact : (h : Header) → leaks patterns (redact patterns h) ≡ false
  unfolding leaks redact any
  leaks-redact [] = refl
  leaks-redact ((key, vals) ∷ h) = elim (Bool-cases (is_sensitive patterns key)) [
    | inl t ↦ rw (t, ==_refl {A = Str} redacted_value) (leaks-redact h)
    | inr n ↦ rw n (leaks-redact h)
  ]

  -- No sensitive header that is stored in the text has its value, where the text can be read.
  abbrev pub IsSafe : Option Str → Type 0
  IsSafe none = Unit
  IsSafe (some text) =
      (text ≡ []) ⊎ ((h : Header) → decode text ≡ some h → leaks patterns h ≡ false)

  abbrev pub ReadsBack : Type 0
  ReadsBack =
      (text : Str) (h : Header)
      → decode text ≡ some h
      → decode (encode (redact patterns h)) ≡ some (redact patterns h)

  json-IsSafe :
      ReadsBack
      → (stored : Option Str) → IsSafe (redact_header_json decode encode patterns stored).0
  unfolding redact_header_json
  json-IsSafe back none = tt
  json-IsSafe back (some text) = elim (Bool-cases (text == [])) [
    | inl e ↦ rw e (inl ((list_eq.same_iff text []).0 e))
    | inr n ↦ elim (Option-cases (decode text)) [
      | inl d ↦ rw (n, d) (inr λ h e. cc)
      | inr (g, d) ↦ elim (Bool-cases (leaks patterns g)) [
        | inr c ↦ rw (n, d, c) (inr λ h e. let same : h ≡ g = cc in ap (leaks patterns) same ∙ c)
        | inl c ↦
            rw (n, d, c)
              (inr λ h e.
                let read = back text g d in
                let same : h ≡ redact patterns g = cc in ap (leaks patterns) same ∙ leaks-redact g)
      ]
    ]
  ]

  All-IsSafe :
      ReadsBack
      → (ts : List HttpTransaction)
      → All
          (λ (t : HttpTransaction). IsSafe t.request_headers × IsSafe t.response_headers)
          (map (redacted decode encode patterns) ts)
  All-IsSafe back [] = tt
  All-IsSafe back (t ∷ ts) = (
    (json-IsSafe back t.request_headers, json-IsSafe back t.response_headers),
    All-IsSafe back ts,
  )

  -- If the rows have distinct ids, and the headers that are encoded can be read back, then the loop over
  -- the batches ends, within as many rounds as there are rows and one more, with every row redacted
  -- once, and as the number of rows that were processed that of the rows with headers; and no sensitive
  -- header that can be read from a row has its value any more.
  pub redact_existing_transaction_headers-ends :
      (table : List HttpTransaction)
      → ReadsBack
      → Pairs Differ table
      → (redact_existing_transaction_headers decode encode patterns table
          ≡ some (map (redacted decode encode patterns) table, length (keep has_headers table)))
        × All
            (λ (t : HttpTransaction). IsSafe t.request_headers × IsSafe t.response_headers)
            (map (redacted decode encode patterns) table)
  unfolding redact_existing_transaction_headers redact_first
  redact_existing_transaction_headers-ends table back d = (
    redact_batches-all (suc (length table)) 0 table d (omega arith)
          (omega (arith, length-keep has_headers table))
        ∙ ap (λ ts. some (ts, length (keep has_headers table)))
            (all-redacted decode encode patterns table),
    All-IsSafe back table,
  )
