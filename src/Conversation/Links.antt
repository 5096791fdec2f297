-- ===== src/Conversation/Links.antt =====
-- internal/greyproxy/conversation_assembler.go: the links from a conversation to those of its
-- subagents (linkSubagentConversations).
use greyproxy.Prelude.{
  Bool, ◌&&◌, Option, none, some, List, [], ◌∷◌, map, ltb, ◌==◌, nat_eq, list_eq, if◌then◌else◌,
  any, keep, length,
}
use greyproxy.Go.Strings.{Str, codes, has_char}
use greyproxy.Conversation.Turns.{Step, StepCall, truncate}
use greyproxy.Conversation.Subagents.{base_of}
use greyproxy.Conversation.Assembly.{AssembledConversation, AssembledTurn, LinkedSubagent}

-- An id with a slash, `base/…`, is that of a subagent of `base`.
is_subagent : AssembledConversation → Bool
unfolding has_char
is_subagent conv = has_char b'/' conv.conversation_id

-- `subagentMap[base]`
unfoldable pub subagents_of : Str → List AssembledConversation → List AssembledConversation
unfolding is_subagent base_of keep
subagents_of base convs = keep (λ c. is_subagent c && base_of c.conversation_id == base) convs

abbrev shortened : Option Str → Option Str
shortened none = none
shortened (some prompt) = some (if ltb 200 (length prompt) then truncate 200 prompt else prompt)

abbrev first_prompt_of : List AssembledTurn → Option Str
first_prompt_of [] = none
first_prompt_of (t ∷ ts) = shortened t.turn.user_prompt

abbrev linked : AssembledConversation → LinkedSubagent
linked s = record {
  conversation_id = s.conversation_id;
  turn_count = s.turn_count;
  started_at = s.started_at;
  ended_at = s.ended_at;
  first_prompt = first_prompt_of s.turns;
}

-- The names of the tools that start an agent, of all adapters.
abbrev pub agent_tools : List Str
agent_tools =
    codes "Agent"
    ∷ codes "task"
    ∷ codes "spawn_agent"
    ∷ codes "wait_agent"
    ∷ codes "gsd-executor"
    ∷ codes "gsd-planner"
    ∷ codes "gsd-debugger"
    ∷ codes "codebase_investigator"
    ∷ codes "generalist"
    ∷ []

is_agent_call : StepCall → Bool
unfolding any
is_agent_call c = any (λ t. t == c.tool) agent_tools

abbrev link_to : StepCall → List Str → StepCall × List Str
link_to c [] = (c, [])
link_to c (id ∷ ids) = (record c { linked_conversation_id = some id }, ids)

-- The calls take the ids one by one; what is left goes on to the next step.
unfoldable pub link_calls : List StepCall → List Str → List StepCall × List Str
unfolding is_agent_call
link_calls [] ids = ([], ids)
link_calls (c ∷ cs) ids =
    let (c', ids') = if is_agent_call c then link_to c ids else (c, ids) in
    let (cs', ids'') = link_calls cs ids' in (c' ∷ cs', ids'')

unfoldable pub link_steps : List Step → List Str → List Step × List Str
unfolding link_calls
link_steps [] ids = ([], ids)
link_steps (s ∷ steps) ids =
    let (calls, ids') = link_calls s.tool_calls ids in
    let (steps', ids'') = link_steps steps ids' in (record s { tool_calls = calls } ∷ steps', ids'')

unfoldable pub link_turns : List AssembledTurn → List Str → List AssembledTurn
unfolding link_steps
link_turns [] ids = []
link_turns (t ∷ ts) ids =
    let (steps, ids') = link_steps t.turn.steps ids in
    record t { turn = record t.turn { steps = steps } } ∷ link_turns ts ids'

abbrev link_one : AssembledConversation → List AssembledConversation → AssembledConversation
link_one conv [] = conv
link_one conv (s ∷ subs) = record conv {
  linked_subagents = map linked (s ∷ subs);
  turns = link_turns conv.turns (map (λ (c : AssembledConversation). c.conversation_id) (s ∷ subs));
}

-- linkSubagentConversations
unfoldable pub link_subagent_conversations : List AssembledConversation → List AssembledConversation
unfolding is_subagent subagents_of truncate link_turns
link_subagent_conversations convs =
    map (λ c. if is_subagent c then c else link_one c (subagents_of c.conversation_id convs)) convs
