-- ===== src/Conversation.antt =====
-- The conversations that are put together from recorded transactions: conversation_assembler.go of
-- internal/greyproxy, with the adapters of the clients (client_adapter.go and client_*.go).
pub mod Clients
pub mod Detection
pub mod Scaffolding
pub mod Turns
pub mod Rounds
pub mod Sessions
pub mod Threads
pub mod Pieces
pub mod Subagents
pub mod Grouping
pub mod Naming
pub mod Frames
pub mod Assembly
pub mod Links
use greyproxy.Prelude.{ℕ, String, Option, List, ℤ}
use greyproxy.Go.Strings.{Str}
use greyproxy.Dissector.{ExtractionResult}

abbrev pub Header : Type 0
Header = List (Str × List Str)

-- transactionEntry; `time` is what time.Parse makes of the timestamp, in seconds.
pub record TransactionEntry : Type 0 where
  pub txn_id : ℕ
  pub timestamp : Str
  pub time : Option ℕ
  pub container_name : String
  pub url : Str
  pub session_id : Str
  pub model : Str
  pub msg_count : ℤ
  pub result : Option ExtractionResult
  pub duration_ms : ℕ
  pub request_headers : Option Header
