-- ===== src/EndpointRegistry/Table.antt =====
-- internal/greyproxy/endpoint_registry.go: the table `endpoint_rules` and the cache of the rules that
-- are enabled. A statement fails only by the unique index of the table.
use greyproxy.Prelude.{
  ℕ, suc, String, Bool, true, false, not, ◌&&◌, ◌||◌, Option, none, some, List, [], ◌∷◌, ◌++◌, map,
  ltb, ◌==◌, nat_eq, list_eq, string_eq, if◌then◌else◌, ℤ, pos, pos_part, neg_part, ◌+◌, int_eq,
  any, keep, first,
}
use greyproxy.Go.Strings.{Str, codes}
use greyproxy.Go.Sort.{sort}
use greyproxy.EndpointRegistry.{EndpointRule}

pub record EndpointRegistry : Type 0 where
  pub table : List EndpointRule
  pub next_id : ℕ
  pub rules : List EndpointRule

unfoldable pub lt_priority : ℤ → ℤ → Bool
lt_priority a b = ltb (pos_part a + neg_part b) (pos_part b + neg_part a)

-- `ORDER BY priority DESC, id ASC`
unfoldable pub loads_before : EndpointRule → EndpointRule → Bool
unfolding lt_priority
loads_before q r = lt_priority r.priority q.priority || (q.priority == r.priority && ltb q.id r.id)

unfoldable pub enabled_rows : List EndpointRule → List EndpointRule
unfolding keep
enabled_rows table = keep (λ r. r.enabled) table

-- reload
unfoldable pub reload : EndpointRegistry → EndpointRegistry
unfolding enabled_rows sort loads_before
reload reg = record reg { rules = sort loads_before (enabled_rows reg.table) }

abbrev builtin : String → Str → Str → String → EndpointRule
builtin method host path decoder = record {
  id = 0;
  host_pattern = host;
  path_pattern = path;
  method = method;
  decoder_name = decoder;
  priority = pos 0;
  enabled = true;
  user_defined = false;
}

abbrev pub builtin_rules : List EndpointRule
builtin_rules =
    builtin "POST" (codes "api.anthropic.com") (codes "/v1/messages") "anthropic"
    ∷ builtin "POST" (codes "api.openai.com") (codes "/v1/responses") "openai"
    ∷ builtin "WS_REQ" (codes "api.openai.com") (codes "/v1/responses") "openai-ws"
    ∷ builtin "WS_RESP" (codes "api.openai.com") (codes "/v1/responses") "openai-ws"
    ∷ builtin "POST" (codes "api.openai.com") (codes "/v1/chat/completions") "openai-chat"
    ∷ builtin "POST" (codes "openrouter.ai") (codes "/api/v1/chat/completions") "openai-chat"
    ∷ builtin "POST" (codes "generativelanguage.googleapis.com") (codes "/v1beta/models/*")
        "google-ai"
    ∷ []

-- idx_endpoint_rules_unique
unfoldable pub same_endpoint : EndpointRule → EndpointRule → Bool
same_endpoint q r =
    q.host_pattern == r.host_pattern
    && q.path_pattern == r.path_pattern
    && q.method == r.method
    && (if q.user_defined then r.user_defined else not r.user_defined)

-- `ON CONFLICT … DO UPDATE`
unfoldable pub reseeded : EndpointRule → EndpointRule → EndpointRule
reseeded rule r = record r {
  decoder_name = rule.decoder_name;
  priority = rule.priority;
  enabled = true;
}

unfoldable pub seed_rule : EndpointRule → EndpointRegistry → EndpointRegistry
unfolding same_endpoint reseeded any
seed_rule rule reg =
    if any (same_endpoint rule) reg.table
    then record reg {
      table = map (λ r. if same_endpoint rule r then reseeded rule r else r) reg.table;
    }
    else record reg {
      table = reg.table ++ record rule { id = reg.next_id } ∷ [];
      next_id = suc reg.next_id;
    }

unfoldable pub seed_rules : List EndpointRule → EndpointRegistry → EndpointRegistry
unfolding seed_rule
seed_rules [] reg = reg
seed_rules (rule ∷ rules) reg = seed_rules rules (seed_rule rule reg)

-- NewEndpointRegistry, on the table as it is, with seedBuiltinRules.
unfoldable pub new_endpoint_registry : EndpointRegistry → EndpointRegistry
unfolding seed_rules reload
new_endpoint_registry reg = reload (seed_rules builtin_rules reg)

pub data Failure : Type 0 where
  taken rule_not_found built_in rule_not_found_or_built_in : Failure

pub data Result {ℓ} (A : Type ℓ) : Type ℓ where
  ok : A → Result A
  err : Failure → Result A

-- CreateRule
unfoldable pub create_rule : EndpointRule → EndpointRegistry → EndpointRegistry × Result ℕ
unfolding same_endpoint reload any
create_rule rule reg =
    let row = record rule { id = reg.next_id; user_defined = true } in
    if any (same_endpoint row) reg.table then (reg, err taken) else (
      reload (record reg { table = reg.table ++ row ∷ []; next_id = suc reg.next_id }),
      ok reg.next_id,
    )

-- `SET … WHERE id = ? AND user_defined = 1`
unfoldable pub write_rule : ℕ → EndpointRule → EndpointRule → EndpointRule
write_rule id rule r =
    if r.id == id && r.user_defined then record rule { id = r.id; user_defined = true } else r

-- Another row than the one of the id has the endpoint of the new row.
unfoldable pub taken_by_other : ℕ → EndpointRule → List EndpointRule → Bool
unfolding same_endpoint any
taken_by_other id rule table =
    any (λ r. not (r.id == id) && same_endpoint (record rule { id = id; user_defined = true }) r)
      table

abbrev pub on_row :
    ℕ → EndpointRule → EndpointRegistry → Option EndpointRule → EndpointRegistry × Result (Unit {0})
on_row id rule reg none = (reg, err rule_not_found)
on_row id rule reg (some r) =
    if not r.user_defined
    then (reg, err built_in)
    else if taken_by_other id rule reg.table
    then (reg, err taken)
    else (reload (record reg { table = map (write_rule id rule) reg.table }), ok tt)

-- UpdateRule
unfoldable pub update_rule :
    ℕ → EndpointRule → EndpointRegistry → EndpointRegistry × Result (Unit {0})
unfolding taken_by_other write_rule reload first
update_rule id rule reg = on_row id rule reg (first (λ r. r.id == id) reg.table)

-- DeleteRule
unfoldable pub delete_rule : ℕ → EndpointRegistry → EndpointRegistry × Result (Unit {0})
unfolding reload any keep
delete_rule id reg =
    if any (λ r. r.id == id && r.user_defined) reg.table
    then (
      reload (record reg { table = keep (λ r. not (r.id == id && r.user_defined)) reg.table }),
      ok tt,
    )
    else (reg, err rule_not_found_or_built_in)

-- ListRules
unfoldable pub list_rules : EndpointRegistry → List EndpointRule
list_rules reg = reg.rules

-- `strings.ReplaceAll(pattern, "*", "%")`
unfoldable pub like_text : Str → Str
like_text = map (λ c. if c == b'*' then b'%' else c)

url_pattern : EndpointRule → Str
unfolding like_text
url_pattern r = b'%' ∷ (like_text r.host_pattern ++ b'%' ∷ (like_text r.path_pattern ++ b'%' ∷ []))

distinct_patterns : List Str → List EndpointRule → List Str
unfolding url_pattern any
distinct_patterns patterns [] = patterns
distinct_patterns patterns (r ∷ rules) =
    distinct_patterns
      (if any (λ p. p == url_pattern r) patterns then patterns else patterns ++ url_pattern r ∷ [])
      rules

-- AllURLPatterns
unfoldable pub all_url_patterns : EndpointRegistry → List Str
unfolding distinct_patterns
all_url_patterns reg = distinct_patterns [] reg.rules
