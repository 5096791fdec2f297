-- ===== src/CredentialStore/Counts.antt =====
-- The substitutions that were counted in memory reach the database.
use greyproxy.Prelude.{
  ℕ, ◌+◌, String, ◌≡◌, refl, sym, ap, ◌∙◌, List, [], ◌∷◌, map, ◌==◌, nat_eq, string_eq,
  if◌then◌else◌, arith, ap₂, ==_comm,
}
use greyproxy.Store.{Session, Db}
use greyproxy.Store.Sessions.{is_session}
use greyproxy.CredentialStore.{CredentialStore, announce}
use greyproxy.CredentialStore.Persistence.{
  announce_all, increment_substitution_count, to_flush, write_counts, flush_substitution_counts,
}

abbrev pub total : String → List (String × ℕ) → ℕ
total sid [] = 0
total sid ((s, n) ∷ counts) = (if s == sid then n else 0) + total sid counts

-- The session with the counts added to its own.
abbrev pub credit : List (String × ℕ) → Session → Session
credit counts s = record s { substitution_count = s.substitution_count + total s.session_id counts }

total-to_flush :
    (sid : String) (counts : List (String × ℕ)) → total sid (to_flush counts) ≡ total sid counts
unfolding to_flush
total-to_flush sid [] = refl
total-to_flush sid ((s, n) ∷ counts) = ground (arith, total-to_flush sid counts)

credit_none : (ss : List Session) → map (credit []) ss ≡ ss
credit_none [] = refl
credit_none (s ∷ ss) = ap₂ ◌∷◌ (ground arith) (credit_none ss)

credit_next :
    (sid : String) (n : ℕ) (counts : List (String × ℕ)) (ss : List Session)
    → map (credit counts) (
        map
          (λ s.
            if is_session sid s
            then record s { substitution_count = s.substitution_count + n }
            else s)
          ss)
      ≡ map (credit ((sid, n) ∷ counts)) ss
credit_next sid n counts [] = refl
credit_next sid n counts (s ∷ ss) =
    ap₂ ◌∷◌ (ground (arith, ==_comm sid s.session_id)) (credit_next sid n counts ss)

sessions-write_counts :
    (counts : List (String × ℕ)) (db : Db)
    → write_counts counts db ≡ record db { sessions = map (credit counts) db.sessions }
unfolding write_counts increment_substitution_count
sessions-write_counts [] db = ap (λ ss. record db { sessions = ss }) (sym (credit_none db.sessions))
sessions-write_counts ((sid, n) ∷ counts) db =
    sessions-write_counts counts (increment_substitution_count sid n db)
    ∙ ap (λ ss. record db { sessions = ss }) (credit_next sid n counts db.sessions)

pending-announce :
    (kind : String) (cs : CredentialStore) → (announce kind cs).pending_counts ≡ cs.pending_counts
unfolding announce
pending-announce kind cs = ground arith

pending-announce_all :
    (kind : String) (ids : List String) (cs : CredentialStore)
    → (announce_all kind ids cs).pending_counts ≡ cs.pending_counts
unfolding announce_all
pending-announce_all kind [] cs = refl
pending-announce_all kind (id ∷ ids) cs =
    pending-announce_all kind ids (announce kind cs) ∙ pending-announce kind cs

total-zeroed :
    (sid : String) (counts : List (String × ℕ)) → total sid (map (λ (s, n). (s, 0)) counts) ≡ 0
total-zeroed sid [] = refl
total-zeroed sid ((s, n) ∷ counts) = ground (arith, total-zeroed sid counts)

credit_flushed :
    (counts : List (String × ℕ)) (ss : List Session)
    → map (credit (to_flush counts)) ss ≡ map (credit counts) ss
credit_flushed counts [] = refl
credit_flushed counts (s ∷ ss) =
    ap₂ ◌∷◌
      (ap (λ n. record s { substitution_count = s.substitution_count + n })
        (total-to_flush s.session_id counts))
      (credit_flushed counts ss)

-- A flush adds to each session in the table exactly what was counted for it since the last flush,
-- changes nothing else in the database, and leaves no count in memory.
pub flush_substitution_counts-credit :
    (db : Db) (cs : CredentialStore)
    → ((flush_substitution_counts db cs).0
        ≡ record db { sessions = map (credit cs.pending_counts) db.sessions })
      × ((sid : String) → total sid (flush_substitution_counts db cs).1.pending_counts ≡ 0)
unfolding flush_substitution_counts
flush_substitution_counts-credit db cs = (
  sessions-write_counts (to_flush cs.pending_counts) db
      ∙ ap (λ ss. record db { sessions = ss }) (credit_flushed cs.pending_counts db.sessions),
  λ sid. rw pending-announce_all (total-zeroed sid cs.pending_counts),
)
