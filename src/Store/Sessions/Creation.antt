-- ===== src/Store/Sessions/Creation.antt =====
-- What CreateOrUpdateSession writes and returns.
use greyproxy.Prelude.{
  ℕ, suc, ◌+◌, String, ◌≡◌, refl, sym, subst, ◌∙◌, Bool, true, false, not, ◌&&◌, Option, none, some,
  List, [], ◌∷◌, ◌++◌, map, arith, ◌==◌, string_eq, list_eq, any, first, Bool-cases, inl, inr,
  ==_refl, if◌then◌else◌, All-keep, Pairs-keep, any-false, first-append_none,
}
use greyproxy.Store.{Rule, Session, Db}
use greyproxy.Store.Rules.{same_key, is_checked}
use greyproxy.Store.Rules.Table.{IsTable, IsRow, Apart, appended-IsTable}
use greyproxy.Store.Sessions.{
  SessionCreateInput, SessionNetworkRule, is_session, upsert_session, new_session, overwrite,
  delete_session_rules, session_rule, insert_or_ignore, insert_session_rules,
  create_or_update_session, get_session, lifetime, is_action,
}

insert_or_ignore-IsTable :
    (now : ℕ) (input : SessionCreateInput) (nr : SessionNetworkRule) (db : Db)
    → IsTable db
    → IsTable (insert_or_ignore (session_rule now input db.next_rule nr) db)
unfolding insert_or_ignore session_rule is_checked is_action
insert_or_ignore-IsTable now input nr db t =
    elim (Bool-cases (
      is_action r.action
      && not (
          any (same_key r.container_pattern r.destination_pattern r.port_pattern r.action)
            db.rules))) [
              | inr q ↦ rw q t
              | inl q ↦ rw q (appended-IsTable r db t (ground (arith, q)) (ground (arith, q)))
            ]
  where
    r : Rule
    r = session_rule now input db.next_rule nr

insert_session_rules-IsTable :
    (now : ℕ) (input : SessionCreateInput) (nrs : List SessionNetworkRule) (db : Db)
    → IsTable db
    → IsTable (insert_session_rules now input nrs db)
unfolding insert_session_rules
insert_session_rules-IsTable now input [] db t = t
insert_session_rules-IsTable now input (nr ∷ nrs) db t =
    insert_session_rules-IsTable now input nrs _ (insert_or_ignore-IsTable now input nr db t)

delete_session_rules-IsTable :
    (id : String) (db : Db) → IsTable db → IsTable (delete_session_rules id db)
unfolding delete_session_rules
delete_session_rules-IsTable id db t = record {
  rows = All-keep (IsRow db.next_rule) _ db.rules t.rows;
  apart = Pairs-keep Apart _ db.rules t.apart;
}

insert_or_ignore-sessions : (r : Rule) (db : Db) → (insert_or_ignore r db).sessions ≡ db.sessions
unfolding insert_or_ignore
insert_or_ignore-sessions r db = go (
    is_action r.action
    && not
        (any (same_key r.container_pattern r.destination_pattern r.port_pattern r.action) db.rules))
  where
    go :
        (b : Bool)
        → (if b
            then record db { rules = db.rules ++ r ∷ []; next_rule = suc db.next_rule }
            else db).sessions
          ≡ db.sessions
    go true = refl
    go false = refl

insert_session_rules-sessions :
    (now : ℕ) (input : SessionCreateInput) (nrs : List SessionNetworkRule) (db : Db)
    → (insert_session_rules now input nrs db).sessions ≡ db.sessions
unfolding insert_session_rules
insert_session_rules-sessions now input [] db = refl
insert_session_rules-sessions now input (nr ∷ nrs) db =
    let r = session_rule now input db.next_rule nr in
    insert_session_rules-sessions now input nrs (insert_or_ignore r db)
    ∙ insert_or_ignore-sessions r db

-- The session is as the caller asked.
pub record IsAsAsked (now : ℕ) (input : SessionCreateInput) (s : Session) : Type 0 where
  pub id : s.session_id ≡ input.session_id
  pub container : s.container_name ≡ input.container_name
  pub expires : s.expires_at ≡ now + lifetime input.ttl_seconds
  pub allows_all : s.allow_all ≡ input.allow_all

-- The call gave a session of which `P` holds.
abbrev pub Gives : (Session → Type 0) → Option Session → Type 0
Gives P none = ⊥
Gives P (some s) = P s

first-upserted :
    (now : ℕ) (input : SessionCreateInput) (ss : List Session)
    → any (is_session input.session_id) ss ≡ true
    → Gives (IsAsAsked now input) (
        first
          (is_session input.session_id)
          (map (λ s. if is_session input.session_id s then overwrite now input s else s) ss))
unfolding any first overwrite new_session
first-upserted now input [] h = cc
first-upserted now input (s ∷ ss) h = elim (Bool-cases (s.session_id == input.session_id)) [
  | inl q ↦
      rw (q, ==_refl input.session_id)
        (record { id = refl; container = refl; expires = refl; allows_all = refl })
  | inr q ↦ rw (q, q) (first-upserted now input ss (rw q at h))
]

upsert-Gives :
    (now : ℕ) (input : SessionCreateInput) (ss : List Session)
    → Gives
        (IsAsAsked now input)
        (first (is_session input.session_id) (upsert_session now input ss))
unfolding upsert_session new_session first
upsert-Gives now input ss = elim (Bool-cases (any (is_session input.session_id) ss)) [
  | inl q ↦ rw q (first-upserted now input ss q)
  | inr q ↦ rw q (
      subst (Gives (IsAsAsked now input)) (sym (first-append_none _ ss _ (any-false _ ss q)))
        (fresh now input))
]
  where
    own :
        (now : ℕ) (input : SessionCreateInput)
        → first (is_session input.session_id) (new_session now input ∷ [])
          ≡ some (new_session now input)
    own now input = rw (==_refl input.session_id)

    fresh :
        (now : ℕ) (input : SessionCreateInput)
        → Gives
            (IsAsAsked now input)
            (first (is_session input.session_id) (new_session now input ∷ []))
    fresh now input =
        subst (Gives (IsAsAsked now input)) (sym (own now input))
          (record { id = refl; container = refl; expires = refl; allows_all = refl })

-- With the constraints of the rules table in force before, CreateOrUpdateSession returns a session
-- with the id, the container, the lifetime from now and the flag that were asked for, whether it was
-- there before or not, and the constraints of the rules table are in force after.
pub create_or_update_session-IsAsAsked :
    (now : ℕ) (input : SessionCreateInput) (db : Db)
    → IsTable db
    → IsTable (create_or_update_session now input db).0
      × Gives (IsAsAsked now input) (create_or_update_session now input db).1
unfolding create_or_update_session get_session delete_session_rules
create_or_update_session-IsAsAsked now input db t = (
  insert_session_rules-IsTable now input input.network_rules cleared (
      delete_session_rules-IsTable input.session_id upserted
        (record { rows = t.rows; apart = t.apart })),
  rw (insert_session_rules-sessions now input input.network_rules cleared)
      (upsert-Gives now input db.sessions),
)
  where
    upserted : Db
    upserted = record db { sessions = upsert_session now input db.sessions }

    cleared : Db
    cleared = delete_session_rules input.session_id upserted
