-- ===== src/Dissector.antt =====
-- internal/greyproxy/dissector/dissector.go: what a dissector reads from a recorded transaction.
pub mod Sse
pub mod RoundTrip
use greyproxy.Prelude.{ℤ, String, Bool, Option, List}
use greyproxy.Go.Strings.{Str}

pub record ContentBlock : Type 0 where
  pub kind : String
  pub text : Str
  pub name : Str
  pub id : String
  pub input : Str
  pub tool_summary : Str
  pub tool_use_id : String
  pub content : Str
  pub is_error : Bool
  pub thinking : Str

pub record Message : Type 0 where
  pub role : String
  pub content : List ContentBlock
  pub raw_content : Str

pub record ToolCall : Type 0 where
  pub tool : Str
  pub tool_use_id : String
  pub input_preview : Str
  pub tool_summary : Str
  pub result_preview : Str

pub record SseResponseData : Type 0 where
  pub text : Str
  pub tool_calls : List ToolCall
  pub thinking : Str

pub record ExtractionResult : Type 0 where
  pub provider : String
  pub session_id : Str
  pub model : Str
  pub messages : List Message
  pub system_blocks : List Str
  pub tools : List String
  pub sse_response : Option SseResponseData
  pub message_count : ℤ
  pub client_hint : String
