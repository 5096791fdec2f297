-- ===== src/Tests/Conversation.antt =====
-- The theorems on conversations and streams of events at concrete inputs.
use greyproxy.Prelude.{
  ℕ, ◌≡◌, ◌↔◌, refl, none, some, List, [], ◌∷◌, map, leb, ◌==◌, nat_eq, ◌&&◌, if◌then◌else◌, keep,
  All, In, pos, list_eqb, any,
}
use greyproxy.Go.Strings.{codes, has_char, is_space, trim_space}
use greyproxy.Go.Sort.{sort}
use greyproxy.Dissector.{Message}
use greyproxy.Dissector.Sse.{SseEvent, parse_sse}
use greyproxy.Dissector.RoundTrip.{IsClean, wire, parse_sse-wire}
use greyproxy.Conversation.{TransactionEntry}
use greyproxy.Conversation.Scaffolding.{ScaffoldingConfig}
use greyproxy.Conversation.Turns.{
  Turn, build_rounds, count_prompts, entry_prompts, requests_of_turn,
}
use greyproxy.Conversation.Rounds.{
  numbers, answers, total_calls, build_rounds-prompts, requests_of_turn-prompts,
}
use greyproxy.Conversation.Threads.{
  is_earlier, starts_invocation, starts_group, split_subagent_invocations, group_by_time_gap,
}
use greyproxy.Conversation.Pieces.{IsCut, concat, split_subagent_invocations-IsCut}

abbrev delta : SseEvent
delta = record { event = codes "delta"; payload = codes "{\"a\": 1}" }

delta-IsClean : IsClean delta
unfolding has_char is_space
delta-IsClean = (
  ((codes "delt", b'a', refl, refl), refl),
  ((codes "{\"a\": 1", b'}', refl, refl), refl),
  λ e. cc,
)

parse_sse-wire_example : parse_sse (wire (delta ∷ delta ∷ [])) ≡ delta ∷ delta ∷ []
parse_sse-wire_example = parse_sse-wire (delta ∷ delta ∷ []) (delta-IsClean, (delta-IsClean, tt))

abbrev config : ScaffoldingConfig
config = record {
  exact_texts = codes "quota" ∷ [];
  prefix_patterns = [];
  xml_tag_patterns = (codes "<system-reminder>", codes "</system-reminder>") ∷ [];
}

abbrev prompt : Message
prompt = record { role = "user"; content = []; raw_content = codes "Fix the test" }

abbrev answer : Message
answer = record { role = "assistant"; content = []; raw_content = codes "Done" }

abbrev talk : List Message
talk = prompt ∷ answer ∷ answer ∷ prompt ∷ answer ∷ []

build_rounds-prompts_example :
    (map (λ (t : Turn). t.turn_number) (build_rounds config 1 talk)
      ≡ numbers 1 (count_prompts config talk))
    × (total_calls (build_rounds config 1 talk) ≡ answers config talk)
build_rounds-prompts_example = build_rounds-prompts config 1 talk

abbrev entry : ℕ → List Message → TransactionEntry
entry n messages = record {
  txn_id = n;
  timestamp = [];
  time = some n;
  container_name = "app-1";
  url = codes "https://api.anthropic.com/v1/messages";
  session_id = codes "s";
  model = codes "m";
  msg_count = pos 3;
  result = some (record {
    provider = "anthropic";
    session_id = codes "s";
    model = codes "m";
    messages = messages;
    system_blocks = [];
    tools = [];
    sse_response = none;
    message_count = pos 3;
    client_hint = "";
  });
  duration_ms = 5;
  request_headers = none;
}

abbrev first_request : TransactionEntry
first_request = entry 1 (prompt ∷ answer ∷ [])

abbrev second_request : TransactionEntry
second_request = entry 2 talk

abbrev prompts_of : TransactionEntry → ℕ
prompts_of e = e.txn_id

prompts_counted :
    All (λ e. entry_prompts config e ≡ some (prompts_of e)) (first_request ∷ second_request ∷ [])
unfolding entry_prompts trim_space list_eqb any
prompts_counted = (refl, (refl, tt))

requests_of_turn-prompts_example :
    requests_of_turn config (first_request ∷ second_request ∷ []) 2 2 ≡ (
      if leb 1 2 && leb 2 2
      then keep (λ e. prompts_of e == 2) (first_request ∷ second_request ∷ [])
      else [])
requests_of_turn-prompts_example =
    requests_of_turn-prompts config prompts_of (first_request ∷ second_request ∷ []) 2 2
      prompts_counted

split_subagent_invocations-IsCut_example :
    IsCut starts_invocation (split_subagent_invocations (second_request ∷ first_request ∷ []))
    × (concat (split_subagent_invocations (second_request ∷ first_request ∷ []))
        ≡ sort is_earlier (second_request ∷ first_request ∷ []))
    × ((e : TransactionEntry)
        → In e (concat (split_subagent_invocations (second_request ∷ first_request ∷ [])))
          ↔ In e (second_request ∷ first_request ∷ []))
    × IsCut starts_group (group_by_time_gap (second_request ∷ first_request ∷ []))
    × (concat (group_by_time_gap (second_request ∷ first_request ∷ []))
        ≡ second_request ∷ first_request ∷ [])
split_subagent_invocations-IsCut_example =
    split_subagent_invocations-IsCut (second_request ∷ first_request ∷ [])
