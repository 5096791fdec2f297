-- ===== src/Store/Matching/Newest.antt =====
-- Which session's rules are in force for a container: those of its newest active session.
use greyproxy.Prelude.{
  ℕ, ◌≤◌, String, ◌≡◌, sym, true, ◌⊎◌, none, some, List, [], ◌∷◌, leb, ltb, arith, list_eq,
  string_eq, list_eqb_iff, ℤ, keep, In, In-keep, keep-In, Bool-cases, Option-cases, inl, inr,
}
use text.Mathlib.TextEquality.{eq_iff}
use greyproxy.Go.Strings.{Str}
use greyproxy.Store.{Rule, Session, Db}
use greyproxy.Store.Matching.{
  find_matching_rule, newest_session, latest, later, is_candidate, is_visible, in_newest,
}
use greyproxy.Store.Matching.Choice.{find_matching_rule-Applies}

-- The session that `latest` keeps stood in the list or was the best before, and none is newer.
record IsLatest (b : Session) (ss : List Session) (s : Session) : Type 0 where
  among : (s ≡ b) ⊎ In s ss
  not_before : b.created_at ≤ s.created_at
  newest : (q : Session) → In q ss → q.created_at ≤ s.created_at

latest-IsLatest :
    (b : Session) (ss : List Session) (s : Session) → latest (some b) ss ≡ some s → IsLatest b ss s
unfolding latest later
latest-IsLatest b [] s e =
    let same : b ≡ s = cc in
    record { among = inl (sym same); not_before = rw same (omega arith); newest = λ q i. absurd i }
latest-IsLatest b (x ∷ ss) s e = elim (Bool-cases (leb b.created_at x.created_at)) [
  | inl le ↦
      let l = latest-IsLatest x ss s (rw le at e) in
      record {
        among = inr l.among;
        not_before = ground (arith, l.not_before);
        newest = λ q i. elim i [ inl same ↦ rw same l.not_before | inr j ↦ l.newest q j ];
      }
  | inr gt ↦
      let l = latest-IsLatest b ss s (rw gt at e) in
      record {
        among = elim l.among [ inl same ↦ inl same | inr j ↦ inr (inr j) ];
        not_before = l.not_before;
        newest = λ q i. elim i [
          | inl same ↦ rw same (ground (arith, l.not_before))
          | inr j ↦ l.newest q j
        ];
      }
]

-- The active session of the container that was created last.
pub record IsNewest (now : ℕ) (container : Str) (sessions : List Session) (s : Session)
    : Type 0 where
  pub present : In s sessions
  pub own : s.container_name ≡ container
  pub active : ltb now s.expires_at ≡ true
  pub newest :
      (q : Session)
      → In q sessions
      → q.container_name ≡ container
      → ltb now q.expires_at ≡ true
      → q.created_at ≤ s.created_at

newest-among :
    (ss : List Session) (s : Session)
    → latest none ss ≡ some s
    → In s ss × ((q : Session) → In q ss → q.created_at ≤ s.created_at)
unfolding latest later
newest-among [] s e = cc
newest-among (x ∷ ss) s e =
    let l = latest-IsLatest x ss s e in
    (l.among, λ q i. elim i [ inl same ↦ rw same l.not_before | inr j ↦ l.newest q j ])

newest_session-IsNewest :
    (now : ℕ) (container : Str) (sessions : List Session) (s : Session)
    → newest_session now container sessions ≡ some s
    → IsNewest now container sessions s
unfolding newest_session is_candidate
newest_session-IsNewest now container sessions s e =
    let (i, n) = newest-among (keep (is_candidate now container) sessions) s e in
    let (j, c) = keep-In _ s sessions i in
    record {
      present = j;
      own = (list_eqb_iff s.container_name container).0 (ground arith);
      active = ground arith;
      newest = λ q k o a.
          n q (
            In-keep _ q sessions k (ground (arith, (list_eqb_iff q.container_name container).1 o)));
    }

in_newest-session :
    (now : ℕ) (container : Str) (id : String) (sessions : List Session)
    → in_newest now container id sessions ≡ true
    → (s : Session) × (newest_session now container sessions ≡ some s) × (s.session_id ≡ id)
unfolding in_newest
in_newest-session now container id sessions h =
    elim (Option-cases (newest_session now container sessions)) [
      | inl n ↦ absurd (ground (arith, n))
      | inr (s, e) ↦ (s, e, (eq_iff s.session_id id).0 (ground (arith, e)))
    ]

visible-in_newest :
    (now : ℕ) (container : Str) (db : Db) (r : Rule) (id : String)
    → is_visible now container db r ≡ true
    → r.session_id ≡ some id
    → in_newest now container id db.sessions ≡ true
unfolding is_visible
visible-in_newest now container db r id v own = ground (arith, v, own)

-- A rule of a session that the search returns belongs to the session of the container that was
-- created last of those that have not expired.
pub find_matching_rule-IsNewest :
    (now : ℕ) (container host : Str) (port : ℤ) (resolved : Str) (db : Db) (r : Rule) (id : String)
    → find_matching_rule now container host port resolved db ≡ some r
    → r.session_id ≡ some id
    → (s : Session) × (s.session_id ≡ id) × IsNewest now container db.sessions s
find_matching_rule-IsNewest now container host port resolved db r id e own =
    let a = find_matching_rule-Applies now container host port resolved db e in
    let (s, f, same) =
      in_newest-session now container id db.sessions
        (visible-in_newest now container db r id a.visible own) in
    (s, same, newest_session-IsNewest now container db.sessions s f)
