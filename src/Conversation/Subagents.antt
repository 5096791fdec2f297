-- ===== src/Conversation/Subagents.antt =====
-- internal/greyproxy/conversation_assembler.go and subagent_strategy.go: the sessions of subagents that
-- a main session names in the results of its tools.
use greyproxy.Prelude.{
  ℕ, suc, Bool, true, false, not, ◌&&◌, ◌||◌, Option, none, some, List, [], ◌∷◌, ◌++◌, map, leb,
  ◌==◌, nat_eq, list_eq, string_eq, if◌then◌else◌, any, drop,
}
use greyproxy.Go.Strings.{Str, codes, has_prefix, has_char, cut_char, trim_left}
use greyproxy.Go.Strconv.{itoa}
use greyproxy.Go.Maps.{get, put, delete}
use greyproxy.Dissector.{Message, ContentBlock, ExtractionResult, ToolCall, SseResponseData}
use greyproxy.Conversation.{TransactionEntry}
use greyproxy.Conversation.Clients.{Adapter, open_code}

abbrev pub Sessions : Type 0
Sessions = List (Str × List TransactionEntry)

is_word : ℕ → Bool
is_word c =
    (leb b'A' c && leb c b'Z')
    || (leb b'a' c && leb c b'z')
    || (leb b'0' c && leb c b'9')
    || c == b'_'

-- `\s`
is_white : ℕ → Bool
is_white c = c == 32 || c == 9 || c == 10 || c == 12 || c == 13

words : Str → Str
unfolding is_word
words [] = []
words (c ∷ s) = let rest = words s in if is_word c then c ∷ rest else []

abbrev named : Str → Option Str
named [] = none
named (c ∷ s) = some (codes "ses_" ++ c ∷ s)

task_id_at : Str → Option Str
unfolding has_prefix trim_left is_white words
task_id_at s =
    let after = trim_left is_white (drop 8 s) in
    if has_prefix s (codes "task_id:") && has_prefix after (codes "ses_")
    then named (words (drop 4 after))
    else none

-- extractTaskID: the leftmost match of `task_id:\s*(ses_[A-Za-z0-9_]+)`, or the empty text.
unfoldable pub extract_task_id : Str → Str
unfolding task_id_at
extract_task_id [] = []
extract_task_id (c ∷ s) =
    let rest = extract_task_id s in elim (task_id_at (c ∷ s)) [ none ↦ rest | some id ↦ id ]

add_id : Str → List Str → List Str
unfolding extract_task_id
add_id text ids =
    if text == []
    then ids
    else if extract_task_id text == []
    then ids
    else extract_task_id text ∷ ids

ids_of_blocks : List ContentBlock → List Str
unfolding add_id
ids_of_blocks [] = []
ids_of_blocks (b ∷ bs) =
    let rest = ids_of_blocks bs in if b.kind == "tool_result" then add_id b.content rest else rest

ids_of_messages : List Message → List Str
unfolding ids_of_blocks
ids_of_messages [] = []
ids_of_messages (m ∷ ms) = ids_of_blocks m.content ++ ids_of_messages ms

ids_of_calls : List ToolCall → List Str
unfolding add_id
ids_of_calls [] = []
ids_of_calls (tc ∷ tcs) = add_id tc.result_preview (ids_of_calls tcs)

abbrev ids_of_sse : Option SseResponseData → List Str
ids_of_sse none = []
ids_of_sse (some sse) = ids_of_calls sse.tool_calls

abbrev ids_of_result : Option ExtractionResult → List Str
ids_of_result none = []
ids_of_result (some r) = ids_of_messages r.messages ++ ids_of_sse r.sse_response

-- The references to subagents in the entries, in their order.
unfoldable pub task_ids : List TransactionEntry → List Str
unfolding ids_of_messages ids_of_calls
task_ids [] = []
task_ids (e ∷ es) = ids_of_result e.result ++ task_ids es

abbrev add_unknown : List Str → List Str → List Str → List Str
add_unknown known [] extra = extra
add_unknown known (id ∷ ids) extra =
    let rest = add_unknown known ids extra in
    if any (λ k. k == id) known || any (λ k. k == id) rest then rest else id ∷ rest

-- extractReferencedSubagentSessions: only OpenCode names its subagents.
unfoldable pub extract_referenced_subagent_sessions :
    Adapter → List TransactionEntry → List Str → List Str
unfolding task_ids any
extract_referenced_subagent_sessions open_code es known = add_unknown known (task_ids es) []
extract_referenced_subagent_sessions _ es known = []

abbrev is_open_ai : Option ExtractionResult → Bool
is_open_ai none = false
is_open_ai (some r) = r.provider == "openai"

abbrev before_slash : Str → Option (Str × Str) → Str
before_slash key none = key
before_slash key (some (base, rest)) = base

unfoldable pub base_of : Str → Str
unfolding cut_char
base_of key = before_slash key (cut_char b'/' key)

abbrev is_empty : List Str → Bool
is_empty [] = true
is_empty (id ∷ ids) = false

-- The main sessions of OpenAI with the ids that they name.
unfoldable pub main_sessions : Sessions → List (Str × List Str)
unfolding has_char task_ids any
main_sessions [] = []
main_sessions ((sid, es) ∷ sessions) =
    let rest = main_sessions sessions in
    if has_char b'/' sid || not (any (λ e. is_open_ai e.result) es) || is_empty (task_ids es)
    then rest
    else (sid, task_ids es) ∷ rest

subagent_key : Str → ℕ → Str
unfolding itoa
subagent_key sid n = sid ++ (codes "/subagent_" ++ itoa n)

abbrev move_found : Str → Str → Option (List TransactionEntry) → Sessions → Sessions
move_found old new none sessions = sessions
move_found old new (some es) sessions = delete old (put new es sessions)

-- `sessions[newKey] = sessions[existingKey]; delete(sessions, existingKey)`
unfoldable pub move_session : Str → Str → Sessions → Sessions
unfolding get put delete
move_session old new sessions = move_found old new (get old sessions) sessions

-- The loop over the keys that the map has at its start.
unfoldable pub remap_task : Str → Str → List Str → Sessions × ℕ → Sessions × ℕ
unfolding base_of subagent_key move_session
remap_task sid task [] acc = acc
remap_task sid task (key ∷ keys) (sessions, n) = remap_task sid task keys (
    if base_of key == task
    then (move_session key (subagent_key sid (suc n)) sessions, suc n)
    else (sessions, n))

remap_tasks : Str → List Str → Sessions × ℕ → Sessions × ℕ
unfolding remap_task
remap_tasks sid [] acc = acc
remap_tasks sid (task ∷ tasks) (sessions, n) =
    remap_tasks sid tasks (remap_task sid task (map (λ (key, es). key) sessions) (sessions, n))

remap_mains : List (Str × List Str) → Sessions → Sessions
unfolding remap_tasks
remap_mains [] sessions = sessions
remap_mains ((sid, tasks) ∷ mains) sessions =
    remap_mains mains (remap_tasks sid tasks (sessions, 0)).0

-- remapOpenAISubagents
unfoldable pub remap_open_ai_subagents : Sessions → Sessions
unfolding main_sessions remap_mains
remap_open_ai_subagents sessions = remap_mains (main_sessions sessions) sessions
