-- ===== src/Conversation/Grouping.antt =====
-- internal/greyproxy/conversation_assembler.go: groupBySession. A map is an association list in the
-- order of the range; the hash of a system prompt is a parameter.
use greyproxy.Prelude.{
  ℕ, suc, ◌+◌, ◌-◌, Bool, Option, none, some, List, [], ◌∷◌, ◌++◌, ltb, ◌==◌, nat_eq, list_eq,
  if◌then◌else◌,
}
use greyproxy.Go.Strings.{Str, codes}
use greyproxy.Go.Strconv.{itoa}
use greyproxy.Go.Maps.{get, put}
use greyproxy.Go.Sort.{sort}
use greyproxy.Conversation.{TransactionEntry}
use greyproxy.Conversation.Clients.{Adapter, detect_client_from_entries}
use greyproxy.Conversation.Sessions.{SessionKeys, infer_session}
use greyproxy.Conversation.Subagents.{Sessions, remap_open_ai_subagents}
use greyproxy.Conversation.Threads.{
  lt_str, is_earlier, Threads, ThreadKey, main_thread, subagent_thread, skipped_thread,
  split_session_into_threads, split_invocations, group_by_time_gap,
}

abbrev entries_of : Option (List TransactionEntry) → List TransactionEntry
entries_of none = []
entries_of (some es) = es

-- `rawSessions[sid] = append(rawSessions[sid], …)`
unfoldable pub append_entries : Str → List TransactionEntry → Sessions → Sessions
unfolding get put
append_entries sid es sessions = put sid (entries_of (get sid sessions) ++ es) sessions

abbrev pub Assigned : Type 0
Assigned = Sessions × List TransactionEntry

-- The entries by the sessions that they name, and those that name none.
unfoldable pub by_name : List TransactionEntry → Assigned → Assigned
unfolding append_entries
by_name [] acc = acc
by_name (e ∷ es) (raw, rest) = by_name es (
    if e.session_id == []
    then (raw, rest ++ e ∷ [])
    else (append_entries e.session_id (e ∷ []) raw, rest))

abbrev add_inferred : TransactionEntry → Option Str → Assigned → Assigned
add_inferred e none (raw, rest) = (raw, rest ++ e ∷ [])
add_inferred e (some sid) (raw, rest) =
    if sid == [] then (raw, rest ++ e ∷ []) else (append_entries sid (e ∷ []) raw, rest)

unfoldable pub by_inference : SessionKeys → List TransactionEntry → Assigned → Assigned
unfolding append_entries get
by_inference inferred [] acc = acc
by_inference inferred (e ∷ es) acc =
    by_inference inferred es (add_inferred e (get e.txn_id inferred) acc)

abbrev first_time : List TransactionEntry → Option ℕ
first_time [] = none
first_time (e ∷ es) = e.time

last_time : Option ℕ → List TransactionEntry → Option ℕ
last_time found [] = found
last_time found (e ∷ es) = last_time e.time es

-- The times from the first entry to the last, if both parse.
abbrev both_times : Option ℕ → Option ℕ → Option (ℕ × ℕ)
both_times none t = none
both_times (some s) none = none
both_times (some s) (some t) = some (s, t)

unfoldable pub span : List TransactionEntry → Option (ℕ × ℕ)
unfolding last_time
span es = both_times (first_time es) (last_time none es)

abbrev pub gap_threshold : ℕ
gap_threshold = 300

abbrev min_time : ℕ → ℕ → ℕ
min_time a b = if ltb a b then a else b

abbrev max_time : ℕ → ℕ → ℕ
max_time a b = if ltb b a then a else b

-- How long two spans overlap, each with five minutes behind it; 0 if they do not.
unfoldable pub overlap : ℕ × ℕ → ℕ × ℕ → ℕ
overlap (s, t) (s', t') = min_time (t + gap_threshold) (t' + gap_threshold) - max_time s s'

abbrev better : ℕ × ℕ → Str → Option (ℕ × ℕ) → Str × ℕ → Str × ℕ
better group sid none best = best
better group sid (some times) (best, most) =
    if ltb most (overlap times group) then (sid, overlap times group) else (best, most)

unfoldable pub best_session : ℕ × ℕ → Sessions → Str × ℕ → Str × ℕ
unfolding span overlap
best_session group [] best = best
best_session group ((sid, es) ∷ sessions) best =
    best_session group sessions (better group sid (span es) best)

abbrev id_text : List TransactionEntry → Str
id_text [] = []
id_text (e ∷ es) = itoa e.txn_id

last_id : Str → List TransactionEntry → Str
unfolding itoa
last_id found [] = found
last_id found (e ∷ es) = last_id (itoa e.txn_id) es

-- `fmt.Sprintf("heuristic_%d_%d", …)` of the first and the last id.
fake_id : List TransactionEntry → Str
unfolding last_id itoa
fake_id group = codes "heuristic_" ++ (id_text group ++ b'_' ∷ last_id [] group)

unfoldable pub is_before : TransactionEntry → TransactionEntry → Bool
unfolding lt_str
is_before e f = lt_str e.timestamp f.timestamp

abbrev join_session : List TransactionEntry → Sessions → Str × ℕ → Sessions
join_session group raw (best, most) =
    if best == []
    then put (fake_id group) group raw
    else put best (sort is_before (entries_of (get best raw) ++ group)) raw

abbrev place_group : List TransactionEntry → Sessions → Option (ℕ × ℕ) → Sessions
place_group group raw none = put (fake_id group) group raw
place_group group raw (some times) = join_session group raw (best_session times raw ([], 0))

unfoldable pub place_groups : List (List TransactionEntry) → Sessions → Sessions
unfolding span best_session fake_id is_before sort get put
place_groups [] raw = raw
place_groups (group ∷ groups) raw = place_groups groups (place_group group raw (span group))

unfoldable pub place_subagents : Str → ℕ → ℕ → List (List TransactionEntry) → Sessions → Sessions
unfolding itoa put
place_subagents sid sys_len n [] sessions = sessions
place_subagents sid sys_len n (es ∷ invocations) sessions =
    place_subagents sid sys_len (suc n) invocations
      (put (sid ++ (codes "/subagent_" ++ (itoa sys_len ++ b'_' ∷ itoa n))) es sessions)

abbrev place_thread : Str → Adapter → ThreadKey → List TransactionEntry → Sessions → Sessions
place_thread sid adapter main_thread es sessions = put sid es sessions
place_thread sid adapter (subagent_thread n) es sessions =
    place_subagents sid n 1 (split_invocations adapter es) sessions
place_thread sid adapter (skipped_thread t) es sessions = sessions

unfoldable pub place_threads : Str → Adapter → Threads → Sessions → Sessions
unfolding put place_subagents split_invocations
place_threads sid adapter [] sessions = sessions
place_threads sid adapter ((key, es) ∷ threads) sessions =
    place_threads sid adapter threads (place_thread sid adapter key es sessions)

unfoldable pub split_sessions : Sessions → Sessions → Sessions
unfolding sort is_earlier detect_client_from_entries split_session_into_threads place_threads
split_sessions [] sessions = sessions
split_sessions ((sid, es) ∷ raw) sessions =
    let sorted = sort is_earlier es in
    let adapter = detect_client_from_entries sorted in
    split_sessions raw
      (place_threads sid adapter (split_session_into_threads adapter [] sorted) sessions)

module _ (hash : Str → Str) where
  abbrev infer_rest : Sessions → List TransactionEntry → SessionKeys → Assigned
  infer_rest raw unassigned [] = (raw, unassigned)
  infer_rest raw unassigned (k ∷ keys) = by_inference (k ∷ keys) unassigned (raw, [])

  -- The sessions before they are split into threads.
  unfoldable pub raw_sessions : List TransactionEntry → Sessions
  unfolding by_name by_inference sort is_before detect_client_from_entries infer_session
      group_by_time_gap place_groups
  raw_sessions txns =
      let (raw, rest) = by_name txns ([], []) in
      let unassigned = sort is_before rest in
      let inferred = infer_session hash (detect_client_from_entries unassigned) unassigned in
      let (raw', still) = infer_rest raw unassigned inferred in
      place_groups (group_by_time_gap still) raw'

  -- groupBySession
  unfoldable pub group_by_session : List TransactionEntry → Sessions
  unfolding raw_sessions split_sessions remap_open_ai_subagents
  group_by_session txns = remap_open_ai_subagents (split_sessions (raw_sessions txns) [])
