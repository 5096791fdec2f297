-- ===== src/CredentialStore/Persistence.antt =====
-- internal/greyproxy/credential_store.go: the store and the database. Encryption and JSON are
-- parameters: a text that cannot be decrypted or decoded gives `none`.
use greyproxy.Prelude.{
  ℕ, suc, ◌+◌, String, Option, none, some, List, [], ◌∷◌, map, ltb, nat_eq, list_eq, string_eq,
  if◌then◌else◌, leb,
}
use greyproxy.Go.Strings.{Str}
use greyproxy.Events.{EventBus}
use greyproxy.Store.{Session, Db}
use greyproxy.Store.Sessions.{is_session, delete_session, delete_expired_sessions}
use greyproxy.CredentialStore.{
  CredentialStore, empty_store, announce, add_mappings, remove_session_locked,
  register_global_credential,
}
use greyproxy.CredentialStore.Globals.{GlobalCredential, Globals, delete_global_credential}

pub record Codec : Type 0 where
  pub decrypt_mappings : String → Option (List (Str × Str))
  pub decrypt_value : String → Option Str
  pub decode_labels : String → List (Str × String)

-- The rows in the order of their creation times (`ORDER BY created_at`).
insert_session : Session → List Session → List Session
insert_session s [] = s ∷ []
insert_session s (t ∷ ts) =
    let rest = insert_session s ts in if leb t.created_at s.created_at then t ∷ rest else s ∷ t ∷ ts

sort_sessions : List Session → List Session → List Session
unfolding insert_session
sort_sessions sorted [] = sorted
sort_sessions sorted (s ∷ ss) = sort_sessions (insert_session s sorted) ss

-- LoadAllSessions
unfoldable pub load_all_sessions : Db → List Session
unfolding sort_sessions
load_all_sessions db = sort_sessions [] db.sessions

module _ (codec : Codec) where
  abbrev load_mappings : Session → Option (List (Str × Str)) → CredentialStore → CredentialStore
  load_mappings s none cs = cs
  load_mappings s (some mappings) cs =
      add_mappings s.session_id (codec.decode_labels s.labels_json) mappings cs

  unfoldable pub load_sessions : ℕ → List Session → CredentialStore → CredentialStore
  unfolding add_mappings
  load_sessions now [] cs = cs
  load_sessions now (s ∷ ss) cs = load_sessions now ss (
      if ltb s.expires_at now
      then cs
      else load_mappings s (codec.decrypt_mappings s.mappings_enc) cs)

  abbrev load_value : GlobalCredential → Option Str → CredentialStore → CredentialStore
  load_value c none cs = cs
  load_value c (some value) cs = register_global_credential c.placeholder value c.label cs

  unfoldable pub load_globals : Globals → CredentialStore → CredentialStore
  unfolding register_global_credential
  load_globals [] cs = cs
  load_globals (c ∷ globals) cs =
      load_globals globals (load_value c (codec.decrypt_value c.value_enc) cs)

  -- NewCredentialStore, with loadFromDB.
  unfoldable pub new_credential_store : ℕ → Db → Globals → Option EventBus → CredentialStore
  unfolding load_sessions load_globals load_all_sessions
  new_credential_store now db globals bus =
      load_globals globals (load_sessions now (load_all_sessions db) (empty_store bus))

  abbrev purge_one : Session → Option (List (Str × Str)) → Db × ℕ → Db × ℕ
  purge_one s (some mappings) (db, n) = (db, n)
  purge_one s none (db, n) = ((delete_session s.session_id db).0, suc n)

  purge_sessions : List Session → Db × ℕ → Db × ℕ
  unfolding delete_session
  purge_sessions [] acc = acc
  purge_sessions (s ∷ ss) acc =
      purge_sessions ss (purge_one s (codec.decrypt_mappings s.mappings_enc) acc)

  abbrev purge_global : GlobalCredential → Option Str → Globals × ℕ → Globals × ℕ
  purge_global c (some value) (globals, n) = (globals, n)
  purge_global c none (globals, n) = ((delete_global_credential c.id globals).0, suc n)

  purge_globals : Globals → Globals × ℕ → Globals × ℕ
  unfolding delete_global_credential
  purge_globals [] acc = acc
  purge_globals (c ∷ cs) acc =
      purge_globals cs (purge_global c (codec.decrypt_value c.value_enc) acc)

  -- PurgeUnreadableCredentials, with the numbers of sessions and credentials that were purged.
  unfoldable pub purge_unreadable_credentials : Db → Globals → (Db × ℕ) × (Globals × ℕ)
  unfolding purge_sessions purge_globals load_all_sessions
  purge_unreadable_credentials db globals =
      (purge_sessions (load_all_sessions db) (db, 0), purge_globals globals (globals, 0))

unfoldable pub remove_all : List String → CredentialStore → CredentialStore
unfolding remove_session_locked
remove_all [] cs = cs
remove_all (id ∷ ids) cs = remove_all ids (remove_session_locked id cs)

unfoldable pub announce_all : String → List String → CredentialStore → CredentialStore
unfolding announce
announce_all kind [] cs = cs
announce_all kind (id ∷ ids) cs = announce_all kind ids (announce kind cs)

-- cleanup
unfoldable pub cleanup : ℕ → Db → CredentialStore → Db × CredentialStore
unfolding delete_expired_sessions remove_all announce_all
cleanup now db cs =
    let (db', ids) = delete_expired_sessions now db in
    (db', announce_all "session.expired" ids (remove_all ids cs))

-- IncrementSubstitutionCount
unfoldable pub increment_substitution_count : String → ℕ → Db → Db
increment_substitution_count sid delta db = record db {
  sessions =
      map
        (λ s.
          if is_session sid s
          then record s { substitution_count = s.substitution_count + delta }
          else s)
        db.sessions;
}

-- The counters that are not zero, taken by `Swap(0)`.
unfoldable pub to_flush : List (String × ℕ) → List (String × ℕ)
to_flush [] = []
to_flush ((sid, n) ∷ counts) =
    let rest = to_flush counts in if ltb 0 n then (sid, n) ∷ rest else rest

unfoldable pub write_counts : List (String × ℕ) → Db → Db
unfolding increment_substitution_count
write_counts [] db = db
write_counts ((sid, n) ∷ counts) db = write_counts counts (increment_substitution_count sid n db)

-- flushSubstitutionCounts
unfoldable pub flush_substitution_counts : Db → CredentialStore → Db × CredentialStore
unfolding to_flush write_counts announce_all
flush_substitution_counts db cs =
    let taken = to_flush cs.pending_counts in
    (
      write_counts taken db,
      announce_all "session.substitution" (map (λ (sid, n). sid) taken)
          (record cs { pending_counts = map (λ (sid, n). (sid, 0)) cs.pending_counts }),
    )
