-- ===== src/Transactions/Maintenance.antt =====
-- RedactExistingTransactionHeaders of internal/greyproxy/crud.go. The decoder and the encoder of JSON
-- are parameters. A query without an order gives the rows in the order of the table.
use greyproxy.Prelude.{
  ℕ, zero, suc, ◌+◌, Bool, true, false, not, ◌&&◌, ◌||◌, Option, none, some, List, [], ◌∷◌, map,
  ltb, ◌==◌, nat_eq, list_eq, if◌then◌else◌, any, keep, length, take, drop,
}
use greyproxy.Go.Strings.{Str}
use greyproxy.Redact.{Header, redact, redacted_value, is_sensitive}
use greyproxy.Transactions.{HttpTransaction}

abbrev is_redacted : List Str → Bool
is_redacted [] = false
is_redacted (v ∷ []) = v == redacted_value
is_redacted (v ∷ w ∷ vs) = false

-- Some sensitive header still has its value.
unfoldable pub leaks : List Str → Header → Bool
unfolding is_sensitive any
leaks patterns h = any (λ (key, vals). is_sensitive patterns key && not (is_redacted vals)) h

abbrev pub is_there : Option Str → Bool
is_there none = false
is_there (some h) = true

-- `request_headers IS NOT NULL OR response_headers IS NOT NULL`
abbrev pub has_headers : HttpTransaction → Bool
has_headers t = is_there t.request_headers || is_there t.response_headers

abbrev pub batch_size : ℕ
batch_size = 500

module _ (decode : Str → Option Header) (encode : Header → Str) (patterns : List Str) where
  abbrev on_decoded : Str → Option Header → Str × Bool
  on_decoded text none = (text, false)
  on_decoded text (some h) =
      if leaks patterns h then (encode (redact patterns h), true) else (text, false)

  -- redactHeaderJSON, with whether a value has changed.
  unfoldable pub redact_header_json : Option Str → Option Str × Bool
  unfolding leaks redact
  redact_header_json none = (none, false)
  redact_header_json (some text) =
      if text == []
      then (some text, false)
      else (let (text', changed) = on_decoded text (decode text) in (some text', changed))

  -- `UPDATE … SET request_headers = ?, response_headers = ? WHERE id = ?`
  unfoldable pub write_headers : HttpTransaction → List HttpTransaction → List HttpTransaction
  unfolding redact_header_json
  write_headers r table =
      let (request, request_changed) = redact_header_json r.request_headers in
      let (response, response_changed) = redact_header_json r.response_headers in
      if request_changed || response_changed
      then map
          (λ (t : HttpTransaction).
            if t.id == r.id
            then record t { request_headers = request; response_headers = response }
            else t)
          table
      else table

  -- The rows of a batch.
  unfoldable pub redact_batch : List HttpTransaction → List HttpTransaction → List HttpTransaction
  unfolding write_headers
  redact_batch [] table = table
  redact_batch (r ∷ batch) table = redact_batch batch (write_headers r table)

  -- The loop over the batches: the table and the number of rows that were processed; `none` when the
  -- fuel does not suffice.
  unfoldable pub redact_batches : ℕ → ℕ → List HttpTransaction → Option (List HttpTransaction × ℕ)
  unfolding redact_batch keep
  redact_batches zero processed table = none
  redact_batches (suc fuel) processed table =
      let batch = take batch_size (drop processed (keep has_headers table)) in
      let table' = redact_batch batch table in
      let processed' = processed + length batch in
      let rest = redact_batches fuel processed' table' in
      if ltb (length batch) batch_size then some (table', processed') else rest

  -- RedactExistingTransactionHeaders
  unfoldable pub redact_existing_transaction_headers :
      List HttpTransaction → Option (List HttpTransaction × ℕ)
  unfolding redact_batches
  redact_existing_transaction_headers table = redact_batches (suc (length table)) 0 table
