-- ===== src/Transactions.antt =====
-- The HTTP transactions of internal/greyproxy/crud.go: CreateHttpTransaction, GetHttpTransaction and
-- QueryHttpTransactions. The encoder of JSON is a parameter.
pub mod Maintenance
pub mod Rows
pub mod Prefix
pub mod Batches
use greyproxy.Prelude.{
  ℕ, suc, String, Bool, ◌&&◌, ◌||◌, Option, none, some, List, [], ◌∷◌, ◌++◌, map, ltb, ◌==◌, nat_eq,
  string_eq, if◌then◌else◌, ℤ, keep, first, length, take, drop, pos, neg_part, leb, leb_ℤ,
}
use greyproxy.Go.Strings.{Str}
use greyproxy.Go.Sort.{sort}
use greyproxy.Redact.{Header}
use greyproxy.Store.Like.{contains_like}
use greyproxy.Store.Queries.{limit_or, not_before, not_after}

pub record HttpTransaction : Type 0 where
  pub id : ℕ
  pub timestamp : ℕ
  pub container_name : Str
  pub destination_host : Str
  pub destination_port : ℤ
  pub method : String
  pub url : Str
  pub request_headers : Option Str
  pub request_body : Str
  pub request_body_size : ℕ
  pub request_content_type : Option Str
  pub status_code : Option ℕ
  pub response_headers : Option Str
  pub response_body : Str
  pub response_body_size : ℕ
  pub response_content_type : Option Str
  pub duration_ms : Option ℤ
  pub rule_id : Option ℕ
  pub result : String
  pub substituted_credentials : Option Str
  pub session_id : Option String

pub record HttpTransactionCreateInput : Type 0 where
  pub container_name : Str
  pub destination_host : Str
  pub destination_port : ℤ
  pub method : String
  pub url : Str
  pub request_headers : Option Header
  pub request_body : Str
  pub request_content_type : Str
  pub status_code : ℕ
  pub response_headers : Option Header
  pub response_body : Str
  pub response_content_type : Str
  pub duration_ms : ℤ
  pub rule_id : Option ℕ
  pub result : String
  pub substituted_credentials : List String
  pub session_id : String

pub record Transactions : Type 0 where
  pub rows : List HttpTransaction
  pub next_id : ℕ

-- MaxBodyCapture
abbrev pub max_body_capture : ℕ
max_body_capture = 2097152

abbrev null_if_no : Str → Option Str
null_if_no [] = none
null_if_no (c ∷ s) = some (c ∷ s)

abbrev captured : Str → Str
captured body = if ltb max_body_capture (length body) then take max_body_capture body else body

abbrev encoded {ℓ} : {A : Type ℓ} → (A → Str) → Option A → Option Str
encoded encode none = none
encoded encode (some a) = some (encode a)

abbrev credentials_json : (List String → Str) → List String → Option Str
credentials_json encode [] = none
credentials_json encode (c ∷ cs) = some (encode (c ∷ cs))

module _ (encode_header : Header → Str) (encode_names : List String → Str) where
  unfoldable pub new_transaction : ℕ → ℕ → HttpTransactionCreateInput → HttpTransaction
  new_transaction id now input = record {
    id = id;
    timestamp = now;
    container_name = input.container_name;
    destination_host = input.destination_host;
    destination_port = input.destination_port;
    method = input.method;
    url = input.url;
    request_headers = encoded encode_header input.request_headers;
    request_body = captured input.request_body;
    request_body_size = length input.request_body;
    request_content_type = null_if_no input.request_content_type;
    status_code = if input.status_code == 0 then none else some input.status_code;
    response_headers = encoded encode_header input.response_headers;
    response_body = captured input.response_body;
    response_body_size = length input.response_body;
    response_content_type = null_if_no input.response_content_type;
    duration_ms = if leb_ℤ (pos 1) input.duration_ms then some input.duration_ms else none;
    rule_id = input.rule_id;
    result = if input.result == "" then "auto" else input.result;
    substituted_credentials = credentials_json encode_names input.substituted_credentials;
    session_id = if input.session_id == "" then none else some input.session_id;
  }

  -- CreateHttpTransaction
  unfoldable pub create_http_transaction :
      ℕ → HttpTransactionCreateInput → Transactions → Transactions × HttpTransaction
  unfolding new_transaction
  create_http_transaction now input db =
      let row = new_transaction db.next_id now input in
      (record { rows = db.rows ++ row ∷ []; next_id = suc db.next_id }, row)

-- GetHttpTransaction
unfoldable pub get_http_transaction : ℕ → Transactions → Option HttpTransaction
unfolding first
get_http_transaction id db = first (λ t. t.id == id) db.rows

pub record TransactionFilter : Type 0 where
  pub container : Str
  pub destination : Str
  pub method : String
  pub session_id : String
  pub from_date : Option ℕ
  pub to_date : Option ℕ
  pub limit : ℤ
  pub offset : ℕ

abbrev is_session : String → Option String → Bool
is_session id none = id == ""
is_session id (some s) = id == "" || s == id

unfoldable pub transaction_wanted : TransactionFilter → HttpTransaction → Bool
unfolding contains_like
transaction_wanted f t =
    contains_like f.container t.container_name
    && contains_like f.destination t.destination_host
    && (f.method == "" || t.method == f.method)
    && is_session f.session_id t.session_id
    && not_before f.from_date t.timestamp
    && not_after f.to_date t.timestamp

abbrev newer_transaction : HttpTransaction → HttpTransaction → Bool
newer_transaction t u = ltb u.timestamp t.timestamp

abbrev without_bodies : HttpTransaction → HttpTransaction
without_bodies t = record t { request_body = []; response_body = [] }

-- QueryHttpTransactions: a page, without the bodies, and the number of all that are wanted.
unfoldable pub query_http_transactions : TransactionFilter → Transactions → List HttpTransaction × ℕ
unfolding transaction_wanted keep sort
query_http_transactions f db =
    let found = keep (transaction_wanted f) db.rows in
    (
      map without_bodies
          (take (limit_or 50 f.limit) (drop f.offset (sort newer_transaction found))),
      length found,
    )
