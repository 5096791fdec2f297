-- ===== src/Conversation/Turns.antt =====
-- internal/greyproxy/conversation_assembler.go: the turns of a conversation from its messages
-- (buildRoundsFromMessages), and the turn of each request (mapRequestsToTurns). A step keeps the text,
-- the thinking and the tool calls of an assistant message.
use greyproxy.Prelude.{
  ℕ, suc, ◌+◌, String, Bool, false, not, ◌&&◌, Option, none, some, List, [], ◌∷◌, ◌++◌, map, ltb,
  leb, ◌==◌, nat_eq, list_eq, string_eq, if◌then◌else◌, any, keep, take, length, pos, leb_ℤ,
}
use greyproxy.Go.Strings.{Str, codes, join}
use greyproxy.Dissector.{Message, ContentBlock, ExtractionResult}
use greyproxy.Conversation.{TransactionEntry}
use greyproxy.Conversation.Scaffolding.{ScaffoldingConfig, is_real_user_message, get_user_text}

pub record StepCall : Type 0 where
  pub tool : Str
  pub input_preview : Str
  pub tool_summary : Str
  pub tool_use_id : String
  pub result_preview : Option Str
  pub is_error : Bool
  pub linked_conversation_id : Option Str

pub record Step : Type 0 where
  pub text : Option Str
  pub tool_calls : List StepCall
  pub thinking_preview : Option Str

pub record Turn : Type 0 where
  pub turn_number : ℕ
  pub user_prompt : Option Str
  pub steps : List Step
  pub api_calls_in_turn : ℕ

texts_of : List ContentBlock → List Str
texts_of [] = []
texts_of (b ∷ bs) = let rest = texts_of bs in if b.kind == "text" then b.text ∷ rest else rest

calls_of : List ContentBlock → List StepCall
calls_of [] = []
calls_of (b ∷ bs) =
    let rest = calls_of bs in
    if b.kind == "tool_use"
    then record {
      tool = b.name;
      input_preview = b.input;
      tool_summary = b.tool_summary;
      tool_use_id = b.id;
      result_preview = none;
      is_error = false;
      linked_conversation_id = none;
    }
      ∷ rest
    else rest

thoughts_of : List ContentBlock → List Str
thoughts_of [] = []
thoughts_of (b ∷ bs) =
    let rest = thoughts_of bs in
    if b.kind == "thinking" && not (b.thinking == []) then b.thinking ∷ rest else rest

-- truncateUTF8, where a character is one unit.
unfoldable pub truncate : ℕ → Str → Str
truncate n s = if leb (length s) n then s else take n s

abbrev first_thought : List Str → Option Str
first_thought [] = none
first_thought (t ∷ ts) = some (if ltb 500 (length t) then truncate 500 t ++ codes "..." else t)

abbrev joined_text : List Str → Option Str
joined_text [] = none
joined_text (t ∷ ts) = some (join b'\n' (t ∷ ts))

-- getAssistantSummary, as a step.
unfoldable pub get_assistant_summary : Message → Step
unfolding texts_of calls_of thoughts_of truncate join
get_assistant_summary msg =
    if not (msg.raw_content == [])
    then record { text = some msg.raw_content; tool_calls = []; thinking_preview = none }
    else record {
      text = joined_text (texts_of msg.content);
      tool_calls = calls_of msg.content;
      thinking_preview = first_thought (thoughts_of msg.content);
    }

-- getToolResults: the id of the call, the preview and whether it is an error.
unfoldable pub get_tool_results : List ContentBlock → List (String × Str × Bool)
get_tool_results [] = []
get_tool_results (b ∷ bs) =
    let rest = get_tool_results bs in
    if b.kind == "tool_result" then (b.tool_use_id, b.content, b.is_error) ∷ rest else rest

-- `pendingToolCalls[tid]` is the last call with the id; a call without an id is not found.
unfoldable pub is_last_call : String → List StepCall → Bool
unfolding any
is_last_call tid later = not (any (λ c. c.tool_use_id == tid) later)

set_result : String → Str → Bool → List StepCall → List StepCall
unfolding is_last_call
set_result tid preview is_error [] = []
set_result tid preview is_error (c ∷ cs) =
    (if c.tool_use_id == tid && is_last_call tid cs
      then record c { result_preview = some preview; is_error = is_error }
      else c)
    ∷ set_result tid preview is_error cs

calls_in : List Step → List StepCall
calls_in [] = []
calls_in (s ∷ steps) = s.tool_calls ++ calls_in steps

unfoldable pub set_in_steps : String → Str → Bool → List Step → List Step
unfolding set_result calls_in any
set_in_steps tid preview is_error [] = []
set_in_steps tid preview is_error (s ∷ steps) =
    let later = set_in_steps tid preview is_error steps in
    if any (λ c. c.tool_use_id == tid) (calls_in steps)
    then s ∷ later
    else record s { tool_calls = set_result tid preview is_error s.tool_calls } ∷ later

unfoldable pub add_results : List (String × Str × Bool) → List Step → List Step
unfolding set_in_steps
add_results [] steps = steps
add_results ((tid, preview, is_error) ∷ results) steps =
    add_results results (if tid == "" then steps else set_in_steps tid preview is_error steps)

-- The loop over the messages behind a prompt: the steps so far and the number of API calls.
unfoldable pub round_steps : List Message → List Step × ℕ → List Step × ℕ
unfolding get_assistant_summary get_tool_results add_results
round_steps [] acc = acc
round_steps (msg ∷ msgs) (steps, calls) = round_steps msgs (
    if msg.role == "assistant"
    then (steps ++ get_assistant_summary msg ∷ [], suc calls)
    else if msg.role == "user"
    then (add_results (get_tool_results msg.content) steps, calls)
    else (steps, calls))

unfoldable pub is_prompt : ScaffoldingConfig → Message → Bool
unfolding is_real_user_message
is_prompt cfg msg = msg.role == "user" && is_real_user_message cfg msg

-- The messages up to the next prompt, and those from it on.
unfoldable pub until_prompt : ScaffoldingConfig → List Message → List Message × List Message
unfolding is_prompt
until_prompt cfg [] = ([], [])
until_prompt cfg (msg ∷ msgs) =
    let (body, rest) = until_prompt cfg msgs in
    if is_prompt cfg msg then ([], msg ∷ msgs) else (msg ∷ body, rest)

unfoldable pub build_round : ScaffoldingConfig → ℕ → Message → List Message → Turn
unfolding get_user_text round_steps until_prompt
build_round cfg number prompt msgs =
    let (steps, calls) = round_steps (until_prompt cfg msgs).0 ([], 0) in
    record {
      turn_number = number;
      user_prompt = get_user_text cfg prompt;
      steps = steps;
      api_calls_in_turn = calls;
    }

-- buildRoundsFromMessages: what stands in front of the first prompt is left out.
unfoldable pub build_rounds : ScaffoldingConfig → ℕ → List Message → List Turn
unfolding is_prompt build_round
build_rounds cfg number [] = []
build_rounds cfg number (msg ∷ msgs) =
    let next = build_rounds cfg (if is_prompt cfg msg then suc number else number) msgs in
    if is_prompt cfg msg then build_round cfg number msg msgs ∷ next else next

unfoldable pub count_prompts : ScaffoldingConfig → List Message → ℕ
unfolding is_prompt
count_prompts cfg [] = 0
count_prompts cfg (msg ∷ msgs) = (if is_prompt cfg msg then 1 else 0) + count_prompts cfg msgs

abbrev counted : ScaffoldingConfig → Option ExtractionResult → Option ℕ
counted cfg none = none
counted cfg (some r) =
    if leb_ℤ (pos 1) r.message_count then some (count_prompts cfg r.messages) else none

-- The number of prompts of an entry, if it has messages.
unfoldable pub entry_prompts : ScaffoldingConfig → TransactionEntry → Option ℕ
unfolding count_prompts
entry_prompts cfg e = counted cfg e.result

abbrev or_number : Option ℕ → ℕ → ℕ
or_number none d = d
or_number (some n) d = n

abbrev next_turn : ScaffoldingConfig → ℕ → List TransactionEntry → ℕ
next_turn cfg num_turns [] = num_turns
next_turn cfg num_turns (e ∷ es) =
    let later = next_turn cfg num_turns es in
    elim (entry_prompts cfg e) [ none ↦ later | some n ↦ n ]

-- The numbers of the turns: a gap takes the greater of its neighbours'. An entry of a gap that is
-- already filled counts as a neighbour of the next.
unfoldable pub entry_turns :
    ScaffoldingConfig → ℕ → ℕ → List TransactionEntry → List (ℕ × TransactionEntry)
unfolding entry_prompts
entry_turns cfg num_turns prev [] = []
entry_turns cfg num_turns prev (e ∷ es) =
    let next = next_turn cfg num_turns es in
    let gap = if ltb next prev then prev else next in
    let turn = or_number (entry_prompts cfg e) gap in (turn, e) ∷ entry_turns cfg num_turns turn es

-- mapRequestsToTurns, for one turn.
unfoldable pub requests_of_turn :
    ScaffoldingConfig → List TransactionEntry → ℕ → ℕ → List TransactionEntry
unfolding entry_turns keep
requests_of_turn cfg es num_turns turn =
    if leb 1 turn && leb turn num_turns
    then map (λ (n, e). e) (keep (λ (n, e). n == turn) (entry_turns cfg num_turns 0 es))
    else []
