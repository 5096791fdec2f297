-- ===== src/Store/Matching.antt =====
-- FindMatchingRule (internal/greyproxy/crud.go) and the layers of rules (models.go).
pub mod Order
pub mod Choice
pub mod Newest
use greyproxy.Prelude.{
  ℕ, ◌+◌, String, Bool, true, false, not, ◌&&◌, ◌||◌, Option, none, some, List, [], ◌∷◌, ltb, leb,
  ◌==◌, nat_eq, list_eq, string_eq, if◌then◌else◌, ℤ, keep, any, head?,
}
use greyproxy.Go.Strings.{Str}
use greyproxy.Patterns.{matches_rule, calculate_specificity}
use greyproxy.Store.{Rule, Session, Db}
use greyproxy.Store.Rules.{is_live}

abbrev has_session : Option String → Bool
has_session none = false
has_session (some id) = if id == "" then false else true

-- RuleSource
unfoldable pub rule_source : Rule → String
rule_source r =
    if r.created_by == "builtin"
    then "builtin"
    else if has_session r.session_id
    then "session"
    else "global"

-- RuleSourcePriority
unfoldable pub rule_source_priority : Rule → ℕ
unfolding rule_source
rule_source_priority r =
    let source = rule_source r in
    if source == "global"
    then 3
    else if source == "session"
    then 2
    else if source == "builtin"
    then 1
    else 0

-- `ORDER BY created_at DESC, rowid DESC LIMIT 1` over the sessions that pass.
later : Option Session → Session → Option Session
later none s = some s
later (some best) s = if leb best.created_at s.created_at then some s else some best

latest : Option Session → List Session → Option Session
latest best [] = best
latest best (s ∷ ss) = latest (later best s) ss

is_candidate : ℕ → Str → Session → Bool
is_candidate now container s = s.container_name == container && ltb now s.expires_at

-- The newest active session of a container.
unfoldable pub newest_session : ℕ → Str → List Session → Option Session
unfolding later latest is_candidate keep
newest_session now container sessions = latest none (keep (is_candidate now container) sessions)

-- The id stands for the session of the row's own, joined and active, and for the newest one.
unfoldable pub in_newest : ℕ → Str → String → List Session → Bool
unfolding newest_session
in_newest now container id sessions =
    any (λ s. s.session_id == id && ltb now s.expires_at) sessions
    && elim (newest_session now container sessions) [ none ↦ false | some s ↦ s.session_id == id ]

-- The WHERE clause: not expired, and in force for this container's newest session if it belongs to
-- a session.
unfoldable pub is_visible : ℕ → Str → Db → Rule → Bool
unfolding is_live in_newest
is_visible now container db r =
    is_live now r
    && elim r.session_id [ none ↦ true | some id ↦ in_newest now container id db.sessions ]

-- The rule matches by the raw host, or by the host name that was resolved for it.
unfoldable pub rule_matches : Str → Str → ℤ → Str → Rule → Bool
rule_matches container host port resolved r =
    matches_rule container host port r.container_pattern r.destination_pattern r.port_pattern
    || (not (resolved == []))
      && matches_rule container resolved port r.container_pattern r.destination_pattern
          r.port_pattern

unfoldable pub specificity : Rule → ℕ
specificity r = calculate_specificity r.container_pattern r.destination_pattern r.port_pattern

-- The order of `sort.Slice`: the layer, then the specificity, then deny before allow.
unfoldable pub goes_before : Rule → Rule → Bool
unfolding specificity rule_source_priority
goes_before q r =
    let p = rule_source_priority q in
    let p' = rule_source_priority r in
    if not (p == p')
    then ltb p' p
    else if not (specificity q == specificity r)
    then ltb (specificity r) (specificity q)
    else if not (q.action == r.action)
    then q.action == "deny"
    else false

insert : Rule → List Rule → List Rule
insert r [] = r ∷ []
insert r (q ∷ qs) = if goes_before r q then r ∷ q ∷ qs else q ∷ insert r qs

insert_all : List Rule → List Rule → List Rule
unfolding insert
insert_all sorted [] = sorted
insert_all sorted (r ∷ rs) = insert_all (insert r sorted) rs

-- `sort.Slice` by insertion, as Go sorts up to twelve elements. The order that it leaves equal
-- elements in is not specified.
unfoldable pub sort_slice : List Rule → List Rule
unfolding insert_all goes_before
sort_slice rules = insert_all [] rules

-- The rules that apply to a connection.
unfoldable pub applicable : ℕ → Str → Str → ℤ → Str → Db → List Rule
unfolding is_visible rule_matches keep
applicable now container host port resolved db =
    keep (λ r. is_visible now container db r && rule_matches container host port resolved r)
      db.rules

-- FindMatchingRule. The time of last use, which it writes in the background, is `touch_rule`.
unfoldable pub find_matching_rule : ℕ → Str → Str → ℤ → Str → Db → Option Rule
unfolding applicable sort_slice
find_matching_rule now container host port resolved db =
    head? (sort_slice (applicable now container host port resolved db))
