-- ===== src/Tests/Transactions.antt =====
-- The theorem on the redaction of stored transactions at a concrete input.
use greyproxy.Prelude.{
  ◌≡◌, refl, ap, ◌∙◌, sym, Option, none, some, List, [], ◌∷◌, map, ◌==◌, list_eq, list_eqb, any,
  if◌then◌else◌, keep, length, pos, All, Bool-cases, inl, inr,
}
use greyproxy.Go.Search.{cut}
use greyproxy.Go.Strings.{Str, codes}
use greyproxy.Redact.{Header, redact, redacted_value, is_sensitive}
use greyproxy.Transactions.{HttpTransaction}
use greyproxy.Transactions.Maintenance.{has_headers, redact_existing_transaction_headers}
use greyproxy.Transactions.Rows.{redacted}
use greyproxy.Transactions.Batches.{IsSafe, ReadsBack, redact_existing_transaction_headers-ends}

abbrev patterns : List Str
patterns = codes "authorization" ∷ []

abbrev plain : Header
plain = (codes "Authorization", codes "Bearer x" ∷ []) ∷ (codes "Accept", codes "*/*" ∷ []) ∷ []

abbrev hidden : Header
hidden = (codes "Authorization", redacted_value ∷ []) ∷ (codes "Accept", codes "*/*" ∷ []) ∷ []

-- Two texts that can be read.
abbrev decode : Str → Option Header
decode text =
    if text == codes "{plain}"
    then some plain
    else if text == codes "{hidden}"
    then some hidden
    else none

abbrev encode : Header → Str
encode h = codes "{hidden}"

redact-plain : redact patterns plain ≡ hidden
unfolding redact is_sensitive list_eqb cut any
redact-plain = refl

redact-hidden : redact patterns hidden ≡ hidden
unfolding redact is_sensitive list_eqb cut any
redact-hidden = refl

reads_hidden : decode (codes "{hidden}") ≡ some hidden
unfolding list_eqb
reads_hidden = refl

reads_back : ReadsBack decode encode patterns
reads_back text h e = elim (Bool-cases (text == codes "{plain}")) [
  | inl p ↦
      let same : h ≡ plain = cc (rw p at e) in
      reads_hidden ∙ sym (ap some (ap (redact patterns) same ∙ redact-plain))
  | inr n ↦ elim (Bool-cases (text == codes "{hidden}")) [
    | inl p ↦
        let same : h ≡ hidden = cc (rw (n, p) at e) in
        reads_hidden ∙ sym (ap some (ap (redact patterns) same ∙ redact-hidden))
    | inr m ↦ cc (rw (n, m) at e)
  ]
]

abbrev transaction : HttpTransaction
transaction = record {
  id = 1;
  timestamp = 10;
  container_name = codes "app-1";
  destination_host = codes "example.com";
  destination_port = pos 443;
  method = "GET";
  url = codes "https://example.com/";
  request_headers = some (codes "{plain}");
  request_body = [];
  request_body_size = 0;
  request_content_type = none;
  status_code = some 200;
  response_headers = none;
  response_body = [];
  response_body_size = 0;
  response_content_type = none;
  duration_ms = none;
  rule_id = none;
  result = "auto";
  substituted_credentials = none;
  session_id = none;
}

abbrev stored : List HttpTransaction
stored = transaction ∷ record transaction { id = 2; request_headers = none } ∷ []

redact_existing_transaction_headers-ends_example :
    (redact_existing_transaction_headers decode encode patterns stored
      ≡ some (map (redacted decode encode patterns) stored, length (keep has_headers stored)))
    × All
        (λ (t : HttpTransaction).
          IsSafe decode encode patterns t.request_headers
          × IsSafe decode encode patterns t.response_headers)
        (map (redacted decode encode patterns) stored)
redact_existing_transaction_headers-ends_example =
    redact_existing_transaction_headers-ends decode encode patterns stored reads_back
      ((refl, tt), (tt, tt))
