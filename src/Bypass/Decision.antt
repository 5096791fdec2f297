-- ===== src/Bypass/Decision.antt =====
-- When Contains lets a connection through, and what it writes about it.
use greyproxy.Prelude.{
  String, ◌≡◌, ◌≢◌, ◌↔◌, refl, sym, ap, ◌∙◌, Bool, true, false, not, ◌&&◌, Option, none, some, List,
  [], ◌==◌, list_eq, string_eq, Bool-cases, Option-cases, inl, inr, ==_ne,
}
use text.Mathlib.TextEquality.{eq_iff}
use greyproxy.Go.Strings.{Str}
use greyproxy.Store.{Rule}
use greyproxy.Store.Matching.{find_matching_rule}
use greyproxy.Store.Sessions.{is_container_allow_all}
use greyproxy.Bypass.{
  Resolvers, Connection, State, Answer, Wake, identify, host_and_port, resolve_hostname, contains,
  evaluate, silently, silent_mode, on_mode, hold, on_found, held_answer, on_approval,
  wait_for_approval,
}
use greyproxy.Bypass.Holding.{Approved, wait_for_approval_iff}

-- The container, the destination and the host name that the rules are asked about.
abbrev pub who : Resolvers → Connection → Str × Str
who = identify

abbrev pub resolved : Resolvers → Connection → State → Str
resolved r c s = (resolve_hostname r c.now (host_and_port c.addr).0 s.cache).1

abbrev pub found : Resolvers → Connection → State → Option Rule
found r c s =
    find_matching_rule c.now (identify r c).0 (host_and_port c.addr).0 (host_and_port c.addr).1
      (resolved r c s) s.db

-- The container has a name and an active session that allows everything.
abbrev pub session_allows : Resolvers → Connection → State → Bool
session_allows r c s =
    not ((identify r c).0 == []) && is_container_allow_all c.now (identify r c).0 s.db

abbrev pub Approval : Resolvers → Connection → List Wake → State → Rule → Type 0
Approval r c wakes s =
    Approved (identify r c).0 (host_and_port c.addr).0 (host_and_port c.addr).1 (resolved r c s)
      wakes

-- Why a connection is let through.
pub data Cause (r : Resolvers) (c : Connection) (wakes : List Wake) (s : State) : Type 0 where
  silent_mode_allows :
      (mode : String) → silent_mode s.allow_all ≡ some mode → mode ≢ "deny" → Cause r c wakes s
  session_allows_all :
      silent_mode s.allow_all ≡ none → session_allows r c s ≡ true → Cause r c wakes s
  rule_allows :
      (q : Rule)
      → silent_mode s.allow_all ≡ none
      → session_allows r c s ≡ false
      → found r c s ≡ some q
      → q.action ≡ "allow"
      → Cause r c wakes s
  approved_while_held :
      (q : Rule)
      → silent_mode s.allow_all ≡ none
      → session_allows r c s ≡ false
      → found r c s ≡ none
      → Approval r c wakes s q
      → Cause r c wakes s

module _ (r : Resolvers) (c : Connection) (wakes : List Wake) (s : State) where
  silently-blocked : (mode : String) → (silently r c mode s).blocked ≡ (mode == "deny")
  unfolding silently
  silently-blocked mode = refl

  -- The state with the cache after the resolution of the host.
  looked_up : State
  looked_up = record s { cache = (resolve_hostname r c.now (host_and_port c.addr).0 s.cache).0 }

  searched : Option Rule → Answer
  searched = on_found c (identify r c) (host_and_port c.addr) (resolved r c s) wakes looked_up

  evaluate-session : session_allows r c s ≡ true → (evaluate r c wakes s).blocked ≡ false
  unfolding evaluate
  evaluate-session q = rw q

  evaluate-blocked :
      session_allows r c s ≡ false
      → (evaluate r c wakes s).blocked ≡ (searched (found r c s)).blocked
  unfolding evaluate searched looked_up
  evaluate-blocked q = rw q

  searched-allow : (q : Rule) → (q.action == "allow") ≡ true → (searched (some q)).blocked ≡ false
  unfolding searched
  searched-allow q b = rw b

  searched-deny : (q : Rule) → (q.action == "allow") ≡ false → (searched (some q)).blocked ≡ true
  unfolding searched
  searched-deny q b = rw b

  approval : Option Rule
  approval =
      wait_for_approval (identify r c).0 (host_and_port c.addr).0 (host_and_port c.addr).1
        (resolved r c s) wakes

  outcome : Option Rule → Answer
  outcome =
      on_approval (held_answer c (identify r c) (host_and_port c.addr) (resolved r c s) looked_up)

  held : approval ≡ none → (searched none).blocked ≡ true
  unfolding searched hold approval held_answer outcome
  held e = ap (λ o. (outcome o).blocked) e

  released : (q : Rule) → approval ≡ some q → (searched none).blocked ≡ false
  unfolding searched hold approval held_answer outcome
  released q e = ap (λ o. (outcome o).blocked) e

  found-Cause :
      silent_mode s.allow_all ≡ none
      → session_allows r c s ≡ false
      → (o : Option Rule) → found r c s ≡ o
      → (searched o).blocked ≡ false
      → Cause r c wakes s
  unfolding approval
  found-Cause m q (some x) e h = elim (Bool-cases (x.action == "allow")) [
    | inl b ↦ rule_allows x m q e ((eq_iff x.action "allow").0 b)
    | inr b ↦ cc (h, searched-deny x b)
  ]
  found-Cause m q none e h = elim (Option-cases approval) [
    | inl n ↦ cc (h, held n)
    | inr (x, a) ↦ approved_while_held x m q e ((wait_for_approval_iff _ _ _ _ wakes x).0 a)
  ]

  mode-Cause :
      (m : Option String)
      → silent_mode s.allow_all ≡ m
      → (on_mode r c wakes s m).blocked ≡ false
      → Cause r c wakes s
  mode-Cause (some mode) e h =
      silent_mode_allows mode e λ d. cc (h, silently-blocked mode, (eq_iff mode "deny").1 d)
  mode-Cause none e h = elim (Bool-cases (session_allows r c s)) [
    | inl q ↦ session_allows_all e q
    | inr q ↦ found-Cause e q (found r c s) refl (sym (evaluate-blocked q) ∙ h)
  ]

  in_mode :
      {m : Option String}
      → silent_mode s.allow_all ≡ m
      → contains r c wakes s ≡ on_mode r c wakes s m
  unfolding contains
  in_mode e = ap (on_mode r c wakes s) e

  decided :
      {o : Option Rule}
      → silent_mode s.allow_all ≡ none
      → session_allows r c s ≡ false
      → found r c s ≡ o
      → (contains r c wakes s).blocked ≡ (searched o).blocked
  decided m q e =
      ap (λ (a : Answer). a.blocked) (in_mode m)
      ∙ evaluate-blocked q
      ∙ ap (λ o. (searched o).blocked) e

  Cause-allowed : Cause r c wakes s → (contains r c wakes s).blocked ≡ false
  unfolding approval
  Cause-allowed (silent_mode_allows mode e n) =
      ap (λ (a : Answer). a.blocked) (in_mode e)
      ∙ silently-blocked mode
      ∙ ==_ne {A = String} mode "deny" n
  Cause-allowed (session_allows_all e q) =
      ap (λ (a : Answer). a.blocked) (in_mode e) ∙ evaluate-session q
  Cause-allowed (rule_allows x m q e a) =
      decided m q e ∙ searched-allow x ((eq_iff x.action "allow").1 a)
  Cause-allowed (approved_while_held x m q e a) =
      decided m q e ∙ released x ((wait_for_approval_iff _ _ _ _ wakes x).1 a)

  -- Contains lets a connection through exactly for one of four causes: silent mode is on and does not
  -- deny; or it is off and the container has an active session that allows everything; or there is
  -- none and the rule that the search finds allows; or it finds none and a rule is approved while the
  -- connection is held.
  pub contains-allowed_iff : ((contains r c wakes s).blocked ≡ false) ↔ Cause r c wakes s
  unfolding contains
  contains-allowed_iff = (mode-Cause (silent_mode s.allow_all) refl, Cause-allowed)
