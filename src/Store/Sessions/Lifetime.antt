-- ===== src/Store/Sessions/Lifetime.antt =====
-- A session that was deleted or has expired leaves no rule behind.
use greyproxy.Prelude.{
  ℕ, String, ◌≡◌, ◌↔◌, refl, ap, true, false, not, none, List, [], ◌∷◌, map, arith, string_eq, keep,
  first, In, In-keep, keep-In, All, Bool-cases, inl, inr,
}
use greyproxy.Store.{Rule, Session, Db}
use greyproxy.Store.Sessions.{
  belongs, is_session, is_active, delete_session, delete_session_rules, delete_expired_sessions,
  delete_rules_of, get_session,
}

first-removed :
    (id : String) (ss : List Session)
    → first (is_session id) (keep (λ s. not (is_session id s)) ss) ≡ none
unfolding first keep
first-removed id [] = refl
first-removed id (s ∷ ss) = ground (arith, first-removed id ss)

delete_session-gone :
    (id : String) (db : Db)
    → (get_session id (delete_session id db).0 ≡ none)
      × ((r : Rule)
          → In r (delete_session id db).0.rules ↔ (In r db.rules × (belongs id r ≡ false)))
      × ((s : Session)
          → In s (delete_session id db).0.sessions ↔ (In s db.sessions × (is_session id s ≡ false)))
unfolding delete_session delete_session_rules get_session
delete_session-gone id db = (
  first-removed id db.sessions,
  λ r. (
    λ i. let (j, k) = keep-In _ r db.rules i in (j, ground (arith, k)),
    λ (j, k). In-keep _ r db.rules j (rw k),
  ),
  λ s. (
    λ i. let (j, k) = keep-In _ s db.sessions i in (j, ground (arith, k)),
    λ (j, k). In-keep _ s db.sessions j (ground (arith, k)),
  ),
)

-- No id of the list is the owner.
OwnedByNone : List String → Rule → Type 0
OwnedByNone ids r = All (λ id. belongs id r ≡ false) ids

In-delete_rules_of :
    (ids : List String) (db : Db) (r : Rule)
    → In r (delete_rules_of ids db).rules ↔ (In r db.rules × OwnedByNone ids r)
unfolding delete_rules_of delete_session_rules OwnedByNone
In-delete_rules_of [] db r = (λ i. (i, tt), λ h. h.0)
In-delete_rules_of (id ∷ ids) db r =
    let ih = In-delete_rules_of ids (delete_session_rules id db) r in
    (
      λ i.
          let (j, k) = ih.0 i in let (m, n) = keep-In _ r db.rules j in (m, (ground (arith, n), k)),
      λ h. ih.1 (In-keep _ r db.rules h.0 (rw h.1.0), h.1.1),
    )

All-expired :
    (now : ℕ) (r : Rule) (ss : List Session)
    → OwnedByNone (map (λ (s : Session). s.session_id) (keep (λ s. not (is_active now s)) ss)) r
    → (s : Session) → In s ss
    → is_active now s ≡ false
    → belongs s.session_id r ≡ false
unfolding keep OwnedByNone
All-expired now r [] h s i e = absurd i
All-expired now r (x ∷ ss) h s i e = elim (Bool-cases (is_active now x)) [
  | inl q ↦ elim i [
    | inl same ↦ absurd (ground (arith, q, e, ap (is_active now) same))
    | inr j ↦ All-expired now r ss (rw q at h) s j e
  ]
  | inr q ↦
      let (o, os) = split_all (rw q at h) in
      elim i [ inl same ↦ rw same o | inr j ↦ All-expired now r ss os s j e ]
]
  where
    split_all :
        OwnedByNone
          (x.session_id
            ∷ map (λ (s : Session). s.session_id) (keep (λ s. not (is_active now s)) ss))
          r
        → (belongs x.session_id r ≡ false)
          × OwnedByNone
              (map (λ (s : Session). s.session_id) (keep (λ s. not (is_active now s)) ss))
              r
    split_all h = h

expired-All :
    (now : ℕ) (r : Rule) (ss : List Session)
    → ((s : Session) → In s ss → is_active now s ≡ false → belongs s.session_id r ≡ false)
    → OwnedByNone (map (λ (s : Session). s.session_id) (keep (λ s. not (is_active now s)) ss)) r
unfolding keep OwnedByNone
expired-All now r [] h = tt
expired-All now r (x ∷ ss) h = elim (Bool-cases (is_active now x)) [
  | inl q ↦ rw q (expired-All now r ss (λ s i. h s (inr i)))
  | inr q ↦ rw q (h x (inl refl) q, expired-All now r ss (λ s i. h s (inr i)))
]

delete_expired_sessions-kept :
    (now : ℕ) (db : Db)
    → ((s : Session)
        → In s (delete_expired_sessions now db).0.sessions
          ↔ (In s db.sessions × (is_active now s ≡ true)))
      × ((r : Rule)
          → In r (delete_expired_sessions now db).0.rules ↔ (
              In r db.rules
              × ((s : Session)
                  → In s db.sessions
                  → is_active now s ≡ false
                  → belongs s.session_id r ≡ false)))
unfolding delete_expired_sessions
delete_expired_sessions-kept now db = (
  λ s. (λ i. keep-In _ s db.sessions i, λ (j, k). In-keep _ s db.sessions j k),
  λ r.
      let ids =
        map (λ (s : Session). s.session_id) (keep (λ s. not (is_active now s)) db.sessions) in
      let kept = In-delete_rules_of ids db r in
      (
        λ i. let (j, k) = kept.0 i in (j, All-expired now r db.sessions k),
        λ (j, k). kept.1 (j, expired-All now r db.sessions k),
      ),
)

-- After DeleteSession there is no session of the id, the rules are those of before without the
-- session's, and the other sessions are still there. DeleteExpiredSessions keeps exactly the active
-- sessions, and of the rules exactly those that belong to none of the sessions that have expired.
pub removed_sessions-gone :
    (id : String) (now : ℕ) (db : Db)
    → ((get_session id (delete_session id db).0 ≡ none)
        × ((r : Rule)
            → In r (delete_session id db).0.rules ↔ (In r db.rules × (belongs id r ≡ false)))
        × ((s : Session)
            → In s (delete_session id db).0.sessions
              ↔ (In s db.sessions × (is_session id s ≡ false))))
      × ((s : Session)
          → In s (delete_expired_sessions now db).0.sessions
            ↔ (In s db.sessions × (is_active now s ≡ true)))
      × ((r : Rule)
          → In r (delete_expired_sessions now db).0.rules ↔ (
              In r db.rules
              × ((s : Session)
                  → In s db.sessions
                  → is_active now s ≡ false
                  → belongs s.session_id r ≡ false)))
removed_sessions-gone id now db =
    let kept = delete_expired_sessions-kept now db in (delete_session-gone id db, kept.0, kept.1)
