-- ===== src/Conversation/Sessions.antt =====
-- internal/greyproxy/session_strategy.go: the sessions of requests that name none. A map from
-- transactions to keys is an association list; the hash of a system prompt is a parameter.
use greyproxy.Prelude.{
  ℕ, suc, ◌+◌, Bool, false, ◌&&◌, Option, none, some, List, [], ◌∷◌, ◌++◌, ltb, ◌==◌, nat_eq,
  list_eq, if◌then◌else◌, take, ℤ, pos, pos_part, neg_part, leb_ℤ,
}
use greyproxy.Go.Strings.{Str, codes}
use greyproxy.Go.Strconv.{itoa}
use greyproxy.Go.Maps.{get, put}
use greyproxy.Dissector.{ExtractionResult}
use greyproxy.Conversation.{TransactionEntry}
use greyproxy.Conversation.Clients.{
  Adapter, claude_code, open_code, aider, codex, gemini_cli, generic,
}

abbrev pub SessionKeys : Type 0
SessionKeys = List (ℕ × Str)

-- Five minutes, in seconds.
abbrev pub default_gap : ℕ
default_gap = 300

-- `!prevTs.IsZero() && ts.Sub(prevTs) > gap`
unfoldable pub is_gap : ℕ → Option ℕ → ℕ → Bool
is_gap gap none ts = false
is_gap gap (some prev) ts = ltb (prev + gap) ts

timing_key : TransactionEntry → Str
unfolding itoa
timing_key e = codes "timing_" ++ itoa e.txn_id

abbrev next_key : ℕ → Option ℕ → Str → TransactionEntry → Option ℕ → Str
next_key gap prev key e none = key
next_key gap prev key e (some ts) = if is_gap gap prev ts then timing_key e else key

abbrev next_time : Option ℕ → Option ℕ → Option ℕ
next_time prev none = prev
next_time prev (some ts) = some ts

-- The key of each entry, in their order.
unfoldable pub timing_keys : ℕ → Option ℕ → Str → List TransactionEntry → List Str
unfolding is_gap timing_key
timing_keys gap prev key [] = []
timing_keys gap prev key (e ∷ es) =
    let key' = next_key gap prev key e e.time in
    key' ∷ timing_keys gap (next_time prev e.time) key' es

unfoldable pub assign : List TransactionEntry → List Str → SessionKeys
unfolding put
assign [] keys = []
assign (e ∷ es) [] = []
assign (e ∷ es) (key ∷ keys) = put e.txn_id key (assign es keys)

-- TimingStrategy.InferSession; a gap of 0 is the default.
unfoldable pub infer_by_timing : ℕ → List TransactionEntry → SessionKeys
unfolding timing_keys timing_key assign
infer_by_timing gap [] = []
infer_by_timing gap (e ∷ es) =
    assign (e ∷ es)
      (timing_keys (if gap == 0 then default_gap else gap) none (timing_key e) (e ∷ es))

concat_texts : List Str → Str
concat_texts [] = []
concat_texts (b ∷ bs) = b ++ concat_texts bs

module _ (hash : Str → Str) where
  abbrev fingerprint_of : List Str → Str
  fingerprint_of [] = codes "nosystem"
  fingerprint_of (b ∷ bs) = hash (take 200 (concat_texts (b ∷ bs)))

  -- systemPromptFingerprint
  unfoldable pub system_prompt_fingerprint : Option ExtractionResult → Str
  unfolding concat_texts
  system_prompt_fingerprint none = codes "nosystem"
  system_prompt_fingerprint (some r) = fingerprint_of r.system_blocks

  -- Of a fingerprint, the number of its session and the last message count.
  abbrev Growth : Type 0
  Growth = List (Str × (ℕ × ℤ))

  -- `prevCount >= 0 && count < prevCount-1`
  unfoldable pub has_dropped : ℤ → ℤ → Bool
  has_dropped prev count =
      leb_ℤ (pos 0) prev
      && ltb (pos_part count + 1 + neg_part prev) (pos_part prev + neg_part count)

  abbrev session_number : ℤ → Option (ℕ × ℤ) → ℕ
  session_number count none = 0
  session_number count (some (n, prev)) = if has_dropped prev count then suc n else n

  -- MessageGrowthStrategy.InferSession: each fingerprint has a chain of its own.
  unfoldable pub growth_keys : Growth → List TransactionEntry → List Str
  unfolding system_prompt_fingerprint has_dropped get put itoa
  growth_keys seen [] = []
  growth_keys seen (e ∷ es) =
      let fp = system_prompt_fingerprint e.result in
      let n = session_number e.msg_count (get fp seen) in
      (codes "growth_" ++ (take 8 fp ++ b'_' ∷ itoa n))
      ∷ growth_keys (put fp (n, e.msg_count) seen) es

  unfoldable pub infer_by_growth : List TransactionEntry → SessionKeys
  unfolding growth_keys assign
  infer_by_growth es = assign es (growth_keys [] es)

  -- SessionStrategy of each adapter, with InferSession of the strategy. The prompt cache key and the
  -- header infer nothing, so the composite strategy of OpenCode is the growth of the messages.
  unfoldable pub infer_session : Adapter → List TransactionEntry → SessionKeys
  unfolding infer_by_timing infer_by_growth
  infer_session claude_code es = []
  infer_session open_code es = infer_by_growth es
  infer_session aider es = infer_by_timing default_gap es
  infer_session codex es = []
  infer_session gemini_cli es = infer_by_timing default_gap es
  infer_session generic es = infer_by_timing default_gap es
