-- ===== src/Conversation/Clients.antt =====
-- internal/greyproxy/client_adapter.go and client_*.go: which client sent a request, and to which
-- thread of a session a request belongs. A confidence is a number of hundredths.
use greyproxy.Prelude.{
  ℕ, ◌+◌, String, Bool, true, false, not, ◌&&◌, ◌||◌, Option, none, some, List, [], ◌∷◌, ltb, leb,
  ◌==◌, nat_eq, list_eq, string_eq, if◌then◌else◌, any, length, pos, leb_ℤ,
}
use greyproxy.Go.Strings.{Str, codes}
use greyproxy.Go.Search.{contains}
use greyproxy.Go.Maps.{get}
use greyproxy.Dissector.{ExtractionResult}
use greyproxy.Conversation.{Header, TransactionEntry}

pub data Adapter : Type 0 where
  claude_code open_code aider codex gemini_cli generic : Adapter

-- Name
abbrev pub adapter_name : Adapter → String
adapter_name claude_code = "claude-code"
adapter_name open_code = "opencode"
adapter_name aider = "aider"
adapter_name codex = "codex"
adapter_name gemini_cli = "gemini-cli"
adapter_name generic = "generic"

abbrev first_value : Option (List Str) → Str
first_value none = []
first_value (some []) = []
first_value (some (v ∷ vs)) = v

-- `headers.Get`, under a canonical key; empty if there are no headers.
unfoldable pub get_header : Str → Option Header → Str
unfolding get
get_header key none = []
get_header key (some headers) = first_value (get key headers)

unfoldable pub has_tool : String → ExtractionResult → Bool
unfolding any
has_tool name r = any (λ t. t == name) r.tools

abbrev claude_by_tools : Option ExtractionResult → ℕ
claude_by_tools none = 0
claude_by_tools (some r) =
    if r.provider == "anthropic"
      && not (r.session_id == [])
      && (has_tool "Read" r || has_tool "Bash" r || has_tool "Agent" r)
    then 70
    else 0

abbrev pub open_code_by_tools : Option ExtractionResult → ℕ
open_code_by_tools none = 0
open_code_by_tools (some r) =
    if has_tool "task" r && has_tool "question" r && has_tool "todowrite" r then 60 else 0

aider_prompt : Str → Bool
unfolding contains
aider_prompt text =
    contains text (codes "expert software developer")
    && contains text (codes "diligent and tireless")

abbrev aider_by_prompt : Option ExtractionResult → ℕ
aider_by_prompt none = 0
aider_by_prompt (some r) = if any aider_prompt r.system_blocks then 85 else 0

abbrev codex_model : Option ExtractionResult → Bool
codex_model none = false
codex_model (some r) = contains r.model (codes "codex")

abbrev codex_hint : Option ExtractionResult → ℕ
codex_hint none = 0
codex_hint (some r) = if r.client_hint == "codex" then 95 else 0

abbrev claude_confidence : Option Header → Option ExtractionResult → ℕ
claude_confidence headers r =
    let ua = get_header (codes "User-Agent") headers in
    if contains ua (codes "claude-cli/") || contains ua (codes "Claude-Code/")
    then 95
    else claude_by_tools r

abbrev open_code_confidence : Option Header → Option ExtractionResult → ℕ
open_code_confidence headers r =
    if contains (get_header (codes "User-Agent") headers) (codes "opencode/")
    then 95
    else if get_header (codes "X-Title") headers == codes "opencode"
        || get_header (codes "Http-Referer") headers == codes "https://opencode.ai/"
    then 85
    else open_code_by_tools r

abbrev aider_confidence : Option Header → Option ExtractionResult → ℕ
aider_confidence headers r =
    if get_header (codes "Http-Referer") headers == codes "https://aider.chat"
    then 95
    else if get_header (codes "X-Title") headers == codes "Aider"
    then 85
    else if contains (get_header (codes "User-Agent") headers) (codes "litellm/")
        && get_header (codes "X-Title") headers == codes "Aider"
    then 80
    else aider_by_prompt r

abbrev codex_confidence : Option Header → Option ExtractionResult → ℕ
codex_confidence headers r =
    if get_header (codes "Originator") headers == codes "codex_exec"
    then 98
    else if not (get_header (codes "Version") headers == []) && codex_model r
    then 80
    else codex_hint r

abbrev gemini_confidence : Option Header → Option ExtractionResult → ℕ
gemini_confidence headers r =
    if contains (get_header (codes "User-Agent") headers) (codes "GeminiCLI/") then 98 else 0

-- DetectConfidence
unfoldable pub detect_confidence : Adapter → Option Header → Option ExtractionResult → ℕ
unfolding aider_prompt
detect_confidence claude_code headers r = claude_confidence headers r
detect_confidence open_code headers r = open_code_confidence headers r
detect_confidence aider headers r = aider_confidence headers r
detect_confidence codex headers r = codex_confidence headers r
detect_confidence gemini_cli headers r = gemini_confidence headers r
detect_confidence generic headers r = 10

-- The adapters in the order of their registration: `init` runs file by file.
abbrev pub client_adapters : List Adapter
client_adapters = claude_code ∷ open_code ∷ aider ∷ codex ∷ gemini_cli ∷ []

-- The candidate with the highest score, the first one among equals.
unfoldable pub best_candidate :
    Option Header → Option ExtractionResult → Adapter → ℕ → List Adapter → Adapter × ℕ
unfolding detect_confidence
best_candidate headers r best score [] = (best, score)
best_candidate headers r best score (a ∷ adapters) =
    let s = detect_confidence a headers r in
    let best' = if ltb score s then a else best in
    best_candidate headers r best' (if ltb score s then s else score) adapters

abbrev pub threshold : ℕ
threshold = 70

-- DetectClient
unfoldable pub detect_client : Option Header → Option ExtractionResult → Adapter
unfolding best_candidate
detect_client headers r =
    let (best, score) = best_candidate headers r generic 0 client_adapters in
    if leb threshold score then best else generic

abbrev has_headers : TransactionEntry → Bool
has_headers e = elim e.request_headers [
  | none ↦ false
  | some h ↦ elim e.result [ none ↦ false | some r ↦ true ]
]

with_result : List TransactionEntry → Option ExtractionResult
with_result [] = none
with_result (e ∷ es) = elim e.result [ none ↦ with_result es | some r ↦ some r ]

with_headers : List TransactionEntry → Option TransactionEntry
with_headers [] = none
with_headers (e ∷ es) = if has_headers e then some e else with_headers es

-- DetectClientFromEntries
unfoldable pub detect_client_from_entries : List TransactionEntry → Adapter
unfolding with_headers with_result detect_client
detect_client_from_entries es = elim (with_headers es) [
  | some e ↦ detect_client e.request_headers e.result
  | none ↦ elim (with_result es) [ none ↦ generic | some r ↦ detect_client none (some r) ]
]

-- SystemPromptLength of dissector/anthropic.go, in characters.
unfoldable pub system_prompt_length : List Str → ℕ
system_prompt_length [] = 0
system_prompt_length (b ∷ bs) = length b + system_prompt_length bs

-- The threads of a session, as ClassifyThread names them.
pub data Thread : Type 0 where
  main subagent utility mcp title_gen complexity_scorer : Thread

unfoldable pub classify_claude : ℕ → ℕ → Thread
classify_claude sys_len tool_count =
    if ltb 10000 sys_len
    then main
    else if ltb 1000 sys_len
    then subagent
    else if ltb 100 sys_len && leb tool_count 2
    then mcp
    else utility

abbrev claude_thread : ExtractionResult → Thread
claude_thread r = classify_claude (system_prompt_length r.system_blocks) (length r.tools)

abbrev open_code_thread : ExtractionResult → Thread
open_code_thread r =
    if length r.tools == 0
    then (if r.model == codes "gpt-5-nano" || r.model == codes "claude-haiku-4-5-20251001"
        then title_gen
        else utility)
    else if has_tool "task" r || has_tool "question" r || has_tool "todowrite" r
    then main
    else subagent

abbrev codex_thread : ExtractionResult → Thread
codex_thread r = elim r.sse_response [
  | some s ↦ main
  | none ↦
      if has_tool "spawn_agent" r
        || has_tool "wait_agent" r
        || has_tool "resume_agent" r
        || has_tool "close_agent" r
      then main
      else if ltb 0 (length r.tools)
      then subagent
      else utility
]

abbrev gemini_thread : ExtractionResult → Thread
gemini_thread r = if contains r.model (codes "flash-lite") then complexity_scorer else main

abbrev generic_thread : ExtractionResult → Thread
generic_thread r =
    if ltb 0 (length r.tools) && ltb 5000 (system_prompt_length r.system_blocks)
    then main
    else if ltb 0 (length r.tools)
    then subagent
    else if leb_ℤ (pos 1) r.message_count
    then main
    else utility

-- ClassifyThread, of a request with a result.
unfoldable pub classify_thread : Adapter → ExtractionResult → Thread
classify_thread claude_code r = claude_thread r
classify_thread open_code r = open_code_thread r
classify_thread aider r = main
classify_thread codex r = codex_thread r
classify_thread gemini_cli r = gemini_thread r
classify_thread generic r = generic_thread r
