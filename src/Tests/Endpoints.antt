-- ===== src/Tests/Endpoints.antt =====
-- The theorems on the endpoint rules at concrete inputs.
use greyproxy.Prelude.{◌≡◌, refl, true, false, List, [], ◌∷◌, ◌⊎◌, In, pos, list_eqb, any}
use greyproxy.Go.Strings.{codes}
use greyproxy.EndpointRegistry.{EndpointRule, match_endpoint, rule_covers, extract_path}
use greyproxy.EndpointRegistry.Table.{
  new_endpoint_registry, create_rule, update_rule, delete_rule, err, taken, built_in,
  rule_not_found_or_built_in,
}
use greyproxy.EndpointRegistry.Best.{
  Call, restarted, created, updated, after, IsBehind, match_endpoint-IsBest,
}
use greyproxy.EndpointRegistry.Builtins.{builtin_rows, shipped, builtin_rows-shipped}
use greyproxy.EndpointRegistry.Refusals.{Refusal, IsTaken, NotDeletable, refused_unchanged}

abbrev local_rule : EndpointRule
local_rule = record {
  id = 0;
  host_pattern = codes "llm.local";
  path_pattern = codes "/v1/*";
  method = "POST";
  decoder_name = "openai-chat";
  priority = pos 5;
  enabled = true;
  user_defined = true;
}

abbrev history : List Call
history = updated 3 local_rule ∷ restarted ∷ created local_rule ∷ []

match_endpoint-IsBest_example :
    let covers =
      rule_covers (extract_path (codes "https://llm.local/v1/chat")) "POST" (codes "llm.local") in
    let table = (after history).table in
    let found =
      match_endpoint
        (codes "https://llm.local/v1/chat")
        "POST"
        (codes "llm.local")
        (after history).rules in
    ((found ≡ "") × ((r : EndpointRule) → In r table → r.enabled ≡ true → covers r ≡ false))
    ⊎ ((r : EndpointRule) × In r table
        × (r.enabled ≡ true)
        × (covers r ≡ true)
        × (found ≡ r.decoder_name)
        × ((q : EndpointRule) → In q table → q.enabled ≡ true → covers q ≡ true → IsBehind r q))
match_endpoint-IsBest_example =
    match_endpoint-IsBest (codes "https://llm.local/v1/chat") "POST" (codes "llm.local") history

builtin_rows-shipped_example : builtin_rows (after history) ≡ shipped
builtin_rows-shipped_example = builtin_rows-shipped history

refused_unchanged_example :
    ((create_rule local_rule (after history)).1 ≡ err built_in
      → ((create_rule local_rule (after history)).0 ≡ after history)
        × (built_in ≡ taken)
        × IsTaken local_rule (after history).table)
    × ((update_rule 3 local_rule (after history)).1 ≡ err built_in
        → ((update_rule 3 local_rule (after history)).0 ≡ after history)
          × Refusal 3 local_rule (after history).table built_in)
    × ((delete_rule 3 (after history)).1 ≡ err built_in
        → ((delete_rule 3 (after history)).0 ≡ after history)
          × (built_in ≡ rule_not_found_or_built_in)
          × NotDeletable 3 (after history).table)
refused_unchanged_example = refused_unchanged (after history) 3 local_rule built_in

refused_run : (update_rule 3 local_rule (after history)).1 ≡ err built_in
unfolding update_rule create_rule new_endpoint_registry list_eqb any
refused_run = refl
