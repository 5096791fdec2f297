-- ===== src/Conversation/Rounds.antt =====
-- The turns of a conversation against its messages, and its requests against the turns.
use greyproxy.Prelude.{
  ℕ, zero, suc, ◌+◌, ◌≡◌, refl, ap, ◌∙◌, Bool, true, false, ◌&&◌, some, List, [], ◌∷◌, ◌++◌, map,
  leb, ◌==◌, nat_eq, string_eq, if◌then◌else◌, arith, keep, All, Bool-cases, inl, inr,
}
use greyproxy.Dissector.{Message}
use greyproxy.Conversation.{TransactionEntry}
use greyproxy.Conversation.Scaffolding.{ScaffoldingConfig}
use greyproxy.Conversation.Turns.{
  Step, Turn, round_steps, is_prompt, until_prompt, build_round, build_rounds, count_prompts,
  entry_prompts, entry_turns, requests_of_turn, get_assistant_summary, get_tool_results,
  add_results,
}

abbrev pub numbers : ℕ → ℕ → List ℕ
numbers first zero = []
numbers first (suc n) = first ∷ numbers (suc first) n

zero-plus : (n : ℕ) → n ≡ 0 + n
zero-plus n = omega arith

numbers-next : (first n : ℕ) → first ∷ numbers (suc first) n ≡ numbers first (1 + n)
numbers-next first n = let e : suc n ≡ 1 + n = omega arith in ap (numbers first) e

abbrev pub is_assistant : Message → Bool
is_assistant msg = msg.role == "assistant"

abbrev pub assistants : List Message → ℕ
assistants [] = 0
assistants (msg ∷ msgs) = (if is_assistant msg then 1 else 0) + assistants msgs

-- The assistant messages behind the first prompt.
abbrev pub answers : ScaffoldingConfig → List Message → ℕ
answers cfg [] = 0
answers cfg (msg ∷ msgs) = if is_prompt cfg msg then assistants msgs else answers cfg msgs

abbrev pub total_calls : List Turn → ℕ
total_calls [] = 0
total_calls (t ∷ ts) = t.api_calls_in_turn + total_calls ts

round_steps-calls :
    (msgs : List Message) (steps : List Step) (calls : ℕ)
    → (round_steps msgs (steps, calls)).1 ≡ calls + assistants msgs
unfolding round_steps
round_steps-calls [] steps calls = omega arith
round_steps-calls (msg ∷ msgs) steps calls = elim (Bool-cases (msg.role == "assistant")) [
  | inl t ↦
      rw (t, round_steps)
        (omega
          (arith, round_steps-calls msgs (steps ++ get_assistant_summary msg ∷ []) (suc calls)))
  | inr t ↦ elim (Bool-cases (msg.role == "user")) [
    | inl u ↦
        rw (t, u, round_steps)
          (omega (
            arith,
            round_steps-calls msgs (add_results (get_tool_results msg.content) steps) calls,
          ))
    | inr u ↦ rw (t, u, round_steps) (omega (arith, round_steps-calls msgs steps calls))
  ]
]

module _ (cfg : ScaffoldingConfig) where
  -- A prompt is no assistant message, so the answers are those up to the next prompt and those behind.
  prompt-user : (msg : Message) → is_prompt cfg msg ≡ true → is_assistant msg ≡ false
  unfolding is_prompt
  prompt-user msg h =
      let user : (msg.role == "user") ≡ true = ground (arith, h) in
      ap (λ role. role == "assistant") ((string_eq.same_iff msg.role "user").0 user)

  prompt_not_counted :
      (msg : Message) → is_prompt cfg msg ≡ true → ◌≡◌ {A = ℕ} (if is_assistant msg then 1 else 0) 0
  prompt_not_counted msg h = rw (prompt-user msg h)

  assistants-split :
      (msgs : List Message)
      → assistants msgs ≡ assistants (until_prompt cfg msgs).0 + answers cfg msgs
  unfolding until_prompt
  assistants-split [] = refl
  assistants-split (msg ∷ msgs) = elim (Bool-cases (is_prompt cfg msg)) [
    | inl t ↦ rw t (omega (arith, prompt_not_counted msg t))
    | inr t ↦ rw t (omega (arith, assistants-split msgs))
  ]

  build_round-calls :
      (n : ℕ) (prompt : Message) (msgs : List Message)
      → (build_round cfg n prompt msgs).api_calls_in_turn ≡ assistants (until_prompt cfg msgs).0
  unfolding build_round
  build_round-calls n prompt msgs = round_steps-calls (until_prompt cfg msgs).0 [] 0 ∙ omega arith

  pub build_rounds-prompts :
      (first : ℕ) (msgs : List Message)
      → (map (λ (t : Turn). t.turn_number) (build_rounds cfg first msgs)
          ≡ numbers first (count_prompts cfg msgs))
        × (total_calls (build_rounds cfg first msgs) ≡ answers cfg msgs)
  unfolding build_rounds count_prompts
  build_rounds-prompts first [] = (refl, refl)
  build_rounds-prompts first (msg ∷ msgs) = elim (Bool-cases (is_prompt cfg msg)) [
    | inr t ↦
        let (numbered, called) = build_rounds-prompts first msgs in
        rw (t, build_rounds)
          (numbered ∙ ap (numbers first) (zero-plus (count_prompts cfg msgs)), called)
    | inl t ↦
        let (numbered, called) = build_rounds-prompts (suc first) msgs in
        rw (t, build_rounds)
          (
            ap (λ ns. first ∷ ns) numbered ∙ numbers-next first (count_prompts cfg msgs),
            omega (arith, build_round-calls first msg msgs, called, assistants-split msgs),
          )
  ]

  -- The turns when each request carries the whole history: a request belongs to the turn of its last
  -- prompt.
  entry_turns-full :
      (f : TransactionEntry → ℕ) (n prev : ℕ) (es : List TransactionEntry)
      → All (λ e. entry_prompts cfg e ≡ some (f e)) es
      → entry_turns cfg n prev es ≡ map (λ e. (f e, e)) es
  unfolding entry_turns
  entry_turns-full f n prev [] h = refl
  entry_turns-full f n prev (e ∷ es) h =
      rw (h.0, entry_turns) (ap (λ r. (f e, e) ∷ r) (entry_turns-full f n (f e) es h.1))

  keep-turn :
      (f : TransactionEntry → ℕ) (turn : ℕ) (es : List TransactionEntry)
      → map (λ (n, e). e) (keep (λ (n, e). n == turn) (map (λ e. (f e, e)) es))
        ≡ keep (λ e. f e == turn) es
  unfolding keep
  keep-turn f turn [] = refl
  keep-turn f turn (e ∷ es) = elim (Bool-cases (f e == turn)) [
    | inl t ↦ rw t (ap (λ r. e ∷ r) (keep-turn f turn es))
    | inr t ↦ rw t (keep-turn f turn es)
  ]

  pub requests_of_turn-prompts :
      (f : TransactionEntry → ℕ) (es : List TransactionEntry) (num_turns turn : ℕ)
      → All (λ e. entry_prompts cfg e ≡ some (f e)) es
      → requests_of_turn cfg es num_turns turn
        ≡ (if leb 1 turn && leb turn num_turns then keep (λ e. f e == turn) es else [])
  unfolding requests_of_turn
  requests_of_turn-prompts f es num_turns turn h =
      ap
        (λ ts.
          if leb 1 turn && leb turn num_turns
          then map (λ (n, e). e) (keep (λ (n, e). n == turn) ts)
          else [])
        (entry_turns-full f num_turns 0 es h)
      ∙ ap (λ ts. if leb 1 turn && leb turn num_turns then ts else []) (keep-turn f turn es)
