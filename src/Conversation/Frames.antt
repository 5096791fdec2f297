-- ===== src/Conversation/Frames.antt =====
-- internal/greyproxy/conversation_assembler.go: the frames of web sockets, each of which carries its
-- own messages only.
use greyproxy.Prelude.{
  Bool, false, not, ◌&&◌, Option, none, some, List, [], ◌∷◌, ◌++◌, ◌==◌, nat_eq, list_eq, string_eq,
  if◌then◌else◌, any,
}
use greyproxy.Go.Strings.{Str, codes, has_prefix}
use greyproxy.Dissector.{Message, ContentBlock, ExtractionResult, ToolCall, SseResponseData}
use greyproxy.Conversation.{TransactionEntry}

is_web_socket : TransactionEntry → Bool
unfolding has_prefix
is_web_socket e = has_prefix e.url (codes "wss://")

-- assignWSResponseSessions: a frame without a session is of the last one before it.
unfoldable pub assign_ws_response_sessions : Str → List TransactionEntry → List TransactionEntry
unfolding is_web_socket
assign_ws_response_sessions last [] = []
assign_ws_response_sessions last (e ∷ es) =
    let named = not (e.session_id == []) in
    let last' = if named && is_web_socket e then e.session_id else last in
    (if not named && is_web_socket e && not (last == []) then record e { session_id = last } else e)
    ∷ assign_ws_response_sessions last' es

-- isIncrementalWSSession
unfoldable pub is_incremental_ws_session : List TransactionEntry → Bool
unfolding is_web_socket any
is_incremental_ws_session es = any is_web_socket es

abbrev blank_block : ContentBlock
blank_block = record {
  kind = "";
  text = [];
  name = [];
  id = "";
  input = [];
  tool_summary = [];
  tool_use_id = "";
  content = [];
  is_error = false;
  thinking = [];
}

call_blocks : List ToolCall → List ContentBlock
call_blocks [] = []
call_blocks (tc ∷ tcs) =
    record blank_block {
      kind = "tool_use";
      name = tc.tool;
      id = tc.tool_use_id;
      input = tc.input_preview;
      tool_summary = tc.tool_summary;
    }
    ∷ call_blocks tcs

abbrev answer_message : List ContentBlock → List Message
answer_message [] = []
answer_message (b ∷ bs) = record { role = "assistant"; content = b ∷ bs; raw_content = [] } ∷ []

abbrev answer : Option SseResponseData → List Message
answer none = []
answer (some sse) = answer_message (
    (if sse.text == [] then [] else record blank_block { kind = "text"; text = sse.text } ∷ [])
    ++ call_blocks sse.tool_calls)

abbrev frame_messages : Option ExtractionResult → List Message
frame_messages none = []
frame_messages (some r) = r.messages ++ answer r.sse_response

-- aggregateWSMessages
unfoldable pub aggregate_ws_messages : List TransactionEntry → List Message
unfolding call_blocks
aggregate_ws_messages [] = []
aggregate_ws_messages (e ∷ es) = frame_messages e.result ++ aggregate_ws_messages es
