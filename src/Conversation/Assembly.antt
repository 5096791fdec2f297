-- ===== src/Conversation/Assembly.antt =====
-- internal/greyproxy/conversation_assembler.go: one conversation from the requests of a thread
-- (assembleConversation), without its metadata and the reason why it is incomplete.
use greyproxy.Prelude.{
  ℕ, suc, ◌+◌, String, Bool, true, false, not, ◌&&◌, Option, none, some, List, [], ◌∷◌, ◌++◌, map,
  ltb, ◌==◌, nat_eq, list_eq, string_eq, if◌then◌else◌, any, drop, take, length, head?, pos, leb_ℤ,
}
use greyproxy.Go.Strings.{Str, codes, cut_char}
use greyproxy.Go.Sort.{sort}
use greyproxy.Dissector.{ExtractionResult, ToolCall}
use greyproxy.Conversation.{TransactionEntry}
use greyproxy.Conversation.Scaffolding.{ScaffoldingConfig, scaffolding_for_client}
use greyproxy.Conversation.Threads.{is_earlier}
use greyproxy.Conversation.Turns.{Step, StepCall, Turn, build_rounds, requests_of_turn, truncate}
use greyproxy.Conversation.Naming.{detect_provider, infer_client_name}
use greyproxy.Conversation.Frames.{is_incremental_ws_session, aggregate_ws_messages}

pub record AssembledTurn : Type 0 where
  pub turn : Turn
  pub request_ids : List ℕ
  pub timestamp : Option Str
  pub timestamp_end : Option Str
  pub duration_ms : Option ℕ
  pub model : Option Str

pub record LinkedSubagent : Type 0 where
  pub conversation_id : Str
  pub turn_count : ℕ
  pub started_at : Str
  pub ended_at : Str
  pub first_prompt : Option Str

pub record AssembledConversation : Type 0 where
  pub conversation_id : Str
  pub model : Str
  pub container_name : String
  pub provider : String
  pub client_name : String
  pub request_ids : List ℕ
  pub started_at : Str
  pub ended_at : Str
  pub turn_count : ℕ
  pub system_prompt : Option Str
  pub system_prompt_summary : Option Str
  pub parent_conv_id : Option Str
  pub last_turn_has_response : Bool
  pub incomplete : Bool
  pub turns : List AssembledTurn
  pub linked_subagents : List LinkedSubagent

abbrev parseable : Option ExtractionResult → Option ExtractionResult
parseable none = none
parseable (some r) = if leb_ℤ (pos 1) r.message_count then some r else none

abbrev or_found :
    TransactionEntry
    → Option ExtractionResult
    → Option (TransactionEntry × ExtractionResult)
    → Option (TransactionEntry × ExtractionResult)
or_found e none later = later
or_found e (some r) (some found) = some found
or_found e (some r) none = some (e, r)

-- The last entry with messages.
unfoldable pub best_entry : List TransactionEntry → Option (TransactionEntry × ExtractionResult)
best_entry [] = none
best_entry (e ∷ es) = or_found e (parseable e.result) (best_entry es)

sum_durations : List TransactionEntry → ℕ
sum_durations [] = 0
sum_durations (e ∷ es) = e.duration_ms + sum_durations es

last_timestamp : Str → List TransactionEntry → Str
last_timestamp found [] = found
last_timestamp found (e ∷ es) = last_timestamp e.timestamp es

abbrev ids : List TransactionEntry → List ℕ
ids es = map (λ (e : TransactionEntry). e.txn_id) es

abbrev bare_turn : Turn → AssembledTurn
bare_turn t = record {
  turn = t;
  request_ids = [];
  timestamp = none;
  timestamp_end = none;
  duration_ms = none;
  model = none;
}

abbrev turn_of_entry : Turn → Option TransactionEntry → AssembledTurn
turn_of_entry t none = bare_turn t
turn_of_entry t (some e) = record (bare_turn t) {
  timestamp = some e.timestamp;
  duration_ms = some e.duration_ms;
  model = some e.model;
}

-- The turn with its requests; one without any takes the times of the entry at its index.
abbrev turn_with : Turn → List TransactionEntry → Option TransactionEntry → AssembledTurn
turn_with t [] entry = turn_of_entry t entry
turn_with t (e ∷ es) entry = record {
  turn = t;
  request_ids = ids (e ∷ es);
  timestamp = some e.timestamp;
  timestamp_end = some (last_timestamp e.timestamp es);
  duration_ms = some (sum_durations (e ∷ es));
  model = some e.model;
}

unfoldable pub assemble_turns :
    ScaffoldingConfig → List TransactionEntry → ℕ → ℕ → List Turn → List AssembledTurn
unfolding requests_of_turn sum_durations last_timestamp
assemble_turns cfg es count i [] = []
assemble_turns cfg es count i (t ∷ ts) =
    turn_with t (requests_of_turn cfg es count (suc i)) (head? (drop i es))
    ∷ assemble_turns cfg es count (suc i) ts

join_blocks : List Str → Option Str
join_blocks [] = none
join_blocks (b ∷ bs) =
    let rest = join_blocks bs in
    if b == []
    then rest
    else elim rest [ none ↦ some b | some text ↦ some (b ++ (codes "\n\n---\n\n" ++ text)) ]

abbrev summary_of : Option Str → Option Str
summary_of none = none
summary_of (some text) =
    if ltb 100 (length text)
    then some (if ltb 500 (length text) then truncate 500 text ++ codes "..." else text)
    else none

-- The texts of the assistant in the last turn, by their first 200 characters.
known_texts : List Step → List Str
known_texts [] = []
known_texts (s ∷ steps) =
    let rest = known_texts steps in
    elim s.text [ none ↦ rest | some t ↦ if t == [] then rest else take 200 t ∷ rest ]

abbrev given : Str → Option Str
given [] = none
given (c ∷ s) = some (c ∷ s)

sse_calls : List ToolCall → List StepCall
sse_calls [] = []
sse_calls (tc ∷ tcs) =
    record {
      tool = tc.tool;
      input_preview = tc.input_preview;
      tool_summary = tc.tool_summary;
      tool_use_id = "";
      result_preview = none;
      is_error = false;
      linked_conversation_id = none;
    }
    ∷ sse_calls tcs

-- An entry that was loaded has a result.
abbrev new_answer : List Str → Option ExtractionResult → Option Step
new_answer known none = none
new_answer known (some r) = elim r.sse_response [
  | none ↦ none
  | some sse ↦
      if not (sse.text == []) && any (λ t. t == take 200 sse.text) known
      then none
      else some (record {
        text = given sse.text;
        tool_calls = sse_calls sse.tool_calls;
        thinking_preview = given sse.thinking;
      })
]

-- The last response of a stream that the turn does not have.
unfoldable pub recovered : List Str → List TransactionEntry → Option Step
unfolding sse_calls any
recovered known [] = none
recovered known (e ∷ es) =
    let later = recovered known es in
    elim later [ some s ↦ some s | none ↦ new_answer known e.result ]

abbrev add_step : AssembledTurn → Option Step → AssembledTurn
add_step t none = t
add_step t (some s) = record t { turn = record t.turn { steps = t.turn.steps ++ s ∷ [] } }

unfoldable pub recover_last : List TransactionEntry → List AssembledTurn → List AssembledTurn
unfolding known_texts recovered
recover_last es [] = []
recover_last es (t ∷ []) = add_step t (recovered (known_texts t.turn.steps) es) ∷ []
recover_last es (t ∷ u ∷ ts) = t ∷ recover_last es (u ∷ ts)

abbrev has_text : Step → Bool
has_text s = elim s.text [ none ↦ false | some t ↦ true ]

unfoldable pub last_has_response : List AssembledTurn → Bool
unfolding any
last_has_response [] = false
last_has_response (t ∷ []) = any has_text t.turn.steps
last_has_response (t ∷ u ∷ ts) = last_has_response (u ∷ ts)

abbrev parent_id : Option (Str × Str) → Option Str
parent_id none = none
parent_id (some (base, rest)) = some (codes "session_" ++ base)

abbrev header_of :
    Str → String → String → TransactionEntry → List TransactionEntry → AssembledConversation
header_of session_id provider client e es = record {
  conversation_id = codes "session_" ++ session_id;
  model = e.model;
  container_name = e.container_name;
  provider = provider;
  client_name = client;
  request_ids = ids (e ∷ es);
  started_at = e.timestamp;
  ended_at = last_timestamp e.timestamp es;
  turn_count = 0;
  system_prompt = none;
  system_prompt_summary = none;
  parent_conv_id = none;
  last_turn_has_response = false;
  incomplete = true;
  turns = [];
  linked_subagents = [];
}

abbrev complete :
    Str
    → ScaffoldingConfig
    → List TransactionEntry
    → AssembledConversation
    → Option (TransactionEntry × ExtractionResult)
    → AssembledConversation
complete session_id cfg es conv none = conv
complete session_id cfg es conv (some (best, r)) =
    let incremental = is_incremental_ws_session es in
    let rounds =
      build_rounds cfg 1 (if incremental then aggregate_ws_messages es else r.messages) in
    let assembled = assemble_turns cfg es (length rounds) 0 rounds in
    let turns = if incremental then assembled else recover_last es assembled in
    record conv {
      model = best.model;
      turn_count = length rounds;
      system_prompt = join_blocks r.system_blocks;
      system_prompt_summary = summary_of (join_blocks r.system_blocks);
      parent_conv_id = parent_id (cut_char b'/' session_id);
      last_turn_has_response = last_has_response turns;
      incomplete = false;
      turns = turns;
    }

assemble_sorted : Str → List TransactionEntry → Option AssembledConversation
unfolding detect_provider infer_client_name best_entry is_incremental_ws_session build_rounds
    aggregate_ws_messages assemble_turns recover_last join_blocks cut_char last_has_response
    scaffolding_for_client last_timestamp truncate
assemble_sorted session_id [] = none
assemble_sorted session_id (e ∷ es) =
    let provider = detect_provider (e ∷ es) in
    let client = infer_client_name provider (e ∷ es) in
    some (
      complete session_id (scaffolding_for_client client) (e ∷ es)
        (header_of session_id provider client e es) (best_entry (e ∷ es)))

-- assembleConversation; `none` is the panic on no entries.
unfoldable pub assemble_conversation : Str → List TransactionEntry → Option AssembledConversation
unfolding assemble_sorted sort is_earlier
assemble_conversation session_id entries = assemble_sorted session_id (sort is_earlier entries)
