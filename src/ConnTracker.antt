-- ===== src/ConnTracker.antt =====
-- internal/greyproxy/conn_tracker.go: the connections that each rule let through. The two levels of
-- maps are association lists; a cancel function is the id of its connection.
pub mod History
use greyproxy.Prelude.{
  ℕ, suc, Bool, true, false, not, List, [], ◌∷◌, ◌==◌, nat_eq, if◌then◌else◌, keep,
}

abbrev pub Conns : Type 0
Conns = List (ℕ × List ℕ)

pub record ConnTracker : Type 0 where
  pub conns : Conns
  pub next_conn_id : ℕ

abbrev pub new_conn_tracker : ConnTracker
new_conn_tracker = record { conns = []; next_conn_id = 0 }

-- `ct.conns[ruleID]`
unfoldable pub conns_of : ℕ → Conns → List ℕ
conns_of rule [] = []
conns_of rule ((r, ids) ∷ conns) = if r == rule then ids else conns_of rule conns

unfoldable pub delete_rule : ℕ → Conns → Conns
unfolding keep
delete_rule rule conns = keep (λ (r, ids). not (r == rule)) conns

unfoldable pub put : ℕ → List ℕ → Conns → Conns
unfolding delete_rule
put rule ids conns = (rule, ids) ∷ delete_rule rule conns

-- Register
unfoldable pub register : ℕ → ConnTracker → ConnTracker × ℕ
unfolding put conns_of
register rule t =
    let id = suc t.next_conn_id in
    (record { conns = put rule (id ∷ conns_of rule t.conns) t.conns; next_conn_id = id }, id)

-- An inner map that becomes empty is deleted.
abbrev pub store_back : ℕ → List ℕ → Conns → Conns
store_back rule [] conns = delete_rule rule conns
store_back rule (id ∷ ids) conns = put rule (id ∷ ids) conns

abbrev pub known : ℕ → Conns → Bool
known rule [] = false
known rule ((r, ids) ∷ conns) = if r == rule then true else known rule conns

-- Unregister
unfoldable pub unregister : ℕ → ℕ → ConnTracker → ConnTracker
unfolding put conns_of keep delete_rule
unregister rule id t =
    if known rule t.conns
    then record t {
      conns = store_back rule (keep (λ c. not (c == id)) (conns_of rule t.conns)) t.conns;
    }
    else t

-- CancelByRule, with the connections that it cancels.
unfoldable pub cancel_by_rule : ℕ → ConnTracker → ConnTracker × List ℕ
unfolding conns_of delete_rule
cancel_by_rule rule t = (record t { conns = delete_rule rule t.conns }, conns_of rule t.conns)
