-- ===== src/Conversation/Threads.antt =====
-- internal/greyproxy/conversation_assembler.go: the threads of a session (splitSessionIntoThreads),
-- the invocations of subagents (splitSubagentInvocations), and the groups of requests that lie close
-- in time.
use greyproxy.Prelude.{
  ℕ, ◌+◌, Bool, true, false, ◌&&◌, Option, none, some, List, [], ◌∷◌, ◌++◌, ltb, ◌==◌, nat_eq,
  list_eq, if◌then◌else◌, ℤ, pos, pos_part, neg_part, leb_ℤ,
}
use greyproxy.Go.Strings.{Str}
use greyproxy.Go.Sort.{sort}
use greyproxy.Dissector.{ExtractionResult}
use greyproxy.Conversation.{TransactionEntry}
use greyproxy.Conversation.Clients.{
  Adapter, claude_code, Thread, main, subagent, utility, mcp, title_gen, complexity_scorer,
  classify_thread, system_prompt_length,
}

-- `s < t` on texts.
unfoldable pub lt_str : Str → Str → Bool
lt_str [] [] = false
lt_str [] (d ∷ t) = true
lt_str (c ∷ s) [] = false
lt_str (c ∷ s) (d ∷ t) = let rest = lt_str s t in if c == d then rest else ltb c d

-- The order of `sort.Slice`: by the timestamp, then by the id.
unfoldable pub is_earlier : TransactionEntry → TransactionEntry → Bool
unfolding lt_str
is_earlier e f =
    if e.timestamp == f.timestamp then ltb e.txn_id f.txn_id else lt_str e.timestamp f.timestamp

-- A list cut in front of each element that starts a new piece, given the piece before it.
module _ {A : Type 0} (starts : List A → A → Bool) where
  abbrev pub last_piece : List A → List (List A)
  last_piece [] = []
  last_piece (x ∷ xs) = (x ∷ xs) ∷ []

  unfoldable pub split_when : List A → List A → List (List A)
  split_when current [] = last_piece current
  split_when current (x ∷ xs) = elim (starts current x) [
    | true ↦ current ∷ split_when (x ∷ []) xs
    | false ↦ split_when (current ++ x ∷ []) xs
  ]

-- The last message count in the piece that is not negative; 999 if there is none.
last_count : ℤ → List TransactionEntry → ℤ
last_count found [] = found
last_count found (e ∷ es) = last_count (if leb_ℤ (pos 0) e.msg_count then e.msg_count else found) es

abbrev is_nonempty {ℓ} : {A : Type ℓ} → List A → Bool
is_nonempty [] = false
is_nonempty (x ∷ xs) = true

-- The number of messages has fallen by more than one.
unfoldable pub starts_invocation : List TransactionEntry → TransactionEntry → Bool
unfolding last_count
starts_invocation current e =
    let prev = last_count (pos 999) current in
    is_nonempty current
    && leb_ℤ (pos 0) e.msg_count
    && ltb (pos_part e.msg_count + 1 + neg_part prev) (pos_part prev + neg_part e.msg_count)

-- splitSubagentInvocations
unfoldable pub split_subagent_invocations : List TransactionEntry → List (List TransactionEntry)
unfolding sort is_earlier split_when starts_invocation
split_subagent_invocations entries = split_when starts_invocation [] (sort is_earlier entries)

-- SplitInvocations of the adapter's strategy for subagents.
unfoldable pub split_invocations : Adapter → List TransactionEntry → List (List TransactionEntry)
unfolding split_subagent_invocations
split_invocations claude_code entries = split_subagent_invocations entries
split_invocations _ entries = last_piece {A = TransactionEntry} (λ c e. false) entries

-- The key of a thread.
pub data ThreadKey : Type 0 where
  main_thread : ThreadKey
  subagent_thread : ℕ → ThreadKey
  skipped_thread : Thread → ThreadKey

key_of : ExtractionResult → Thread → ThreadKey
unfolding system_prompt_length
key_of r main = main_thread
key_of r subagent = subagent_thread (system_prompt_length r.system_blocks)
key_of r t = skipped_thread t

unfoldable pub thread_key : Adapter → TransactionEntry → ThreadKey
unfolding key_of classify_thread
thread_key adapter e = elim e.result [
  | none ↦ main_thread
  | some r ↦ key_of r (classify_thread adapter r)
]

same_thread : Thread → Thread → Bool
same_thread main main = true
same_thread subagent subagent = true
same_thread utility utility = true
same_thread mcp mcp = true
same_thread title_gen title_gen = true
same_thread complexity_scorer complexity_scorer = true
same_thread _ _ = false

unfoldable pub same_key : ThreadKey → ThreadKey → Bool
unfolding same_thread
same_key main_thread main_thread = true
same_key (subagent_thread m) (subagent_thread n) = m == n
same_key (skipped_thread s) (skipped_thread t) = same_thread s t
same_key _ _ = false

abbrev pub Threads : Type 0
Threads = List (ThreadKey × List TransactionEntry)

-- `threads[key] = append(threads[key], entry)`
unfoldable pub append_to : ThreadKey → TransactionEntry → Threads → Threads
unfolding same_key
append_to key e [] = (key, e ∷ []) ∷ []
append_to key e ((k, es) ∷ threads) =
    let rest = append_to key e threads in
    if same_key k key then (k, es ++ e ∷ []) ∷ threads else (k, es) ∷ rest

-- splitSessionIntoThreads
unfoldable pub split_session_into_threads : Adapter → Threads → List TransactionEntry → Threads
unfolding thread_key append_to
split_session_into_threads adapter threads [] = threads
split_session_into_threads adapter threads (e ∷ es) =
    split_session_into_threads adapter (append_to (thread_key adapter e) e threads) es

abbrev later_than : ℕ → Option ℕ → Option ℕ → Bool
later_than gap none t = false
later_than gap (some p) none = false
later_than gap (some p) (some t) = ltb (p + gap) t

last_entry_time : Option ℕ → List TransactionEntry → Option ℕ
last_entry_time found [] = found
last_entry_time found (e ∷ es) = last_entry_time e.time es

-- `currTs.Sub(prevTs) > timeGapThreshold`; a time that does not parse starts no group.
unfoldable pub starts_group : List TransactionEntry → TransactionEntry → Bool
unfolding last_entry_time
starts_group current e = is_nonempty current && later_than 300 (last_entry_time none current) e.time

-- The groups of the time-gap heuristic of groupBySession.
unfoldable pub group_by_time_gap : List TransactionEntry → List (List TransactionEntry)
unfolding split_when starts_group
group_by_time_gap entries = split_when starts_group [] entries
