-- ===== src/Transactions/Rows.antt =====
-- The update of one row by RedactExistingTransactionHeaders.
use greyproxy.Prelude.{
  ℕ, zero, suc, ◌≡◌, refl, ap, ap₂, Bool, false, ◌||◌, Option, none, some, List, [], ◌∷◌, map, ◌==◌,
  nat_eq, list_eq, if◌then◌else◌, arith, drop, All, In, Bool-cases, Option-cases, inl, inr, ==_refl,
}
use greyproxy.Go.Strings.{Str}
use greyproxy.Redact.{Header}
use greyproxy.Transactions.{HttpTransaction}
use greyproxy.Transactions.Maintenance.{is_there, has_headers, redact_header_json}

abbrev pub Differ : HttpTransaction → HttpTransaction → Type 0
Differ t u = (u.id == t.id) ≡ false

pub drop-In : (k : ℕ) (xs : List HttpTransaction) (x : HttpTransaction) → In x (drop k xs) → In x xs
drop-In zero xs x i = i
drop-In (suc k) [] x i = i
drop-In (suc k) (y ∷ xs) x i = inr (drop-In k xs x i)

module _ (decode : Str → Option Header) (encode : Header → Str) (patterns : List Str) where
  abbrev pub json : Option Str → Option Str × Bool
  json h = redact_header_json decode encode patterns h

  -- The row with both of its headers redacted.
  abbrev pub redacted : HttpTransaction → HttpTransaction
  redacted t = record t {
    request_headers = (json t.request_headers).0;
    response_headers = (json t.response_headers).0;
  }

  unchanged : (h : Option Str) → (json h).1 ≡ false → (json h).0 ≡ h
  unfolding redact_header_json
  unchanged none e = refl
  unchanged (some text) e = ground arith

  pub redacted-same :
      (t : HttpTransaction)
      → (json t.request_headers).1 ≡ false
      → (json t.response_headers).1 ≡ false
      → redacted t ≡ t
  redacted-same t p q = rw (unchanged t.request_headers p, unchanged t.response_headers q)

  json-there : (h : Option Str) → is_there (json h).0 ≡ is_there h
  unfolding redact_header_json
  json-there none = refl
  json-there (some text) = elim (Bool-cases (text == [])) [ inl e ↦ rw e | inr n ↦ rw n ]

  pub redacted-has : (t : HttpTransaction) → has_headers (redacted t) ≡ has_headers t
  redacted-has t = ap₂ ◌||◌ (json-there t.request_headers) (json-there t.response_headers)

  pub none-same : (t : HttpTransaction) → has_headers t ≡ false → redacted t ≡ t
  unfolding redact_header_json
  none-same t e = elim (Option-cases t.request_headers) [
    | inr (h, p) ↦ cc (rw p at e)
    | inl p ↦ elim (Option-cases t.response_headers) [
      | inr (h, q) ↦ cc (rw (p, q) at e)
      | inl q ↦ redacted-same t (rw p) (rw q)
    ]
  ]

  -- The update of one row, whether or not a value has changed.
  abbrev pub write : HttpTransaction → HttpTransaction → HttpTransaction
  write r t =
      if t.id == r.id
      then record t {
        request_headers = (json r.request_headers).0;
        response_headers = (json r.response_headers).0;
      }
      else t

  pub map-write_other :
      (r : HttpTransaction) (ts : List HttpTransaction) → All (Differ r) ts → map (write r) ts ≡ ts
  map-write_other r [] h = refl
  map-write_other r (t ∷ ts) h = rw h.0 (ap (λ us. t ∷ us) (map-write_other r ts h.1))

  pub write-other : (r t : HttpTransaction) → (t.id == r.id) ≡ false → write r t ≡ t
  write-other r t h = rw h

  pub write_self : (t : HttpTransaction) → write t t ≡ redacted t
  write_self t = rw (==_refl t.id)
