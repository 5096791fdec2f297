-- ===== src/CredentialStore.antt =====
-- internal/greyproxy/credential_store.go: the placeholders of credentials that the proxy replaces by
-- the real values. A counter of substitutions is a number in its map.
pub mod Substitution
pub mod Ownership
pub mod Owners
pub mod Exact
pub mod Globals
pub mod Persistence
pub mod Counts
use greyproxy.Prelude.{
  ℕ, zero, suc, ◌+◌, String, Bool, true, false, not, ◌&&◌, Option, none, some, List, [], ◌∷◌, ◌++◌,
  map, ltb, ◌==◌, nat_eq, list_eq, string_eq, if◌then◌else◌, any, length,
}
use greyproxy.Go.Strings.{Str}
use greyproxy.Go.Maps.{get, put, delete}
use greyproxy.Events.{EventBus, publish, Event}

pub record CredentialStore : Type 0 where
  pub lookup : List (Str × Str)
  pub session_map : List (Str × String)
  pub labels_map : List (Str × String)
  pub pending_counts : List (String × ℕ)
  pub bus : Option EventBus

abbrev pub empty_store : Option EventBus → CredentialStore
empty_store bus = record {
  lookup = [];
  session_map = [];
  labels_map = [];
  pending_counts = [];
  bus = bus;
}

-- `if cs.bus != nil { cs.bus.Publish(…) }`; the bus keeps the types of these events only.
unfoldable pub announce : String → CredentialStore → CredentialStore
announce kind cs = elim cs.bus [
  | none ↦ cs
  | some bus ↦ record cs { bus = some (publish (Event.other kind) bus) }
]

abbrev put_found : Str → Option String → List (Str × String) → List (Str × String)
put_found placeholder none labels = labels
put_found placeholder (some label) labels = put placeholder label labels

-- One round of the loops over the mappings of a session.
unfoldable pub add_mapping :
    String → List (Str × String) → Str → Str → CredentialStore → CredentialStore
unfolding get put
add_mapping session_id labels placeholder real cs = record cs {
  lookup = put placeholder real cs.lookup;
  session_map = put placeholder session_id cs.session_map;
  labels_map = put_found placeholder (get placeholder labels) cs.labels_map;
}

unfoldable pub add_mappings :
    String → List (Str × String) → List (Str × Str) → CredentialStore → CredentialStore
unfolding add_mapping
add_mappings session_id labels [] cs = cs
add_mappings session_id labels ((placeholder, real) ∷ mappings) cs =
    add_mappings session_id labels mappings (add_mapping session_id labels placeholder real cs)

unfoldable pub remove_placeholder : Str → CredentialStore → CredentialStore
unfolding delete
remove_placeholder placeholder cs = record cs {
  lookup = delete placeholder cs.lookup;
  session_map = delete placeholder cs.session_map;
  labels_map = delete placeholder cs.labels_map;
}

-- The loop of removeSessionLocked, over the entries of the session map at its start.
unfoldable pub remove_owned : String → List (Str × String) → CredentialStore → CredentialStore
unfolding remove_placeholder
remove_owned session_id [] cs = cs
remove_owned session_id ((placeholder, sid) ∷ entries) cs =
    remove_owned session_id entries
      (if sid == session_id then remove_placeholder placeholder cs else cs)

-- removeSessionLocked
unfoldable pub remove_session_locked : String → CredentialStore → CredentialStore
unfolding remove_owned delete
remove_session_locked session_id cs =
    let cs' = remove_owned session_id cs.session_map cs in
    record cs' { pending_counts = delete session_id cs'.pending_counts }

-- RegisterSession, with the labels of the session decoded.
unfoldable pub register_session :
    String → List (Str × String) → List (Str × Str) → CredentialStore → CredentialStore
unfolding remove_session_locked add_mappings put announce
register_session session_id labels mappings cs =
    let cs' = add_mappings session_id labels mappings (remove_session_locked session_id cs) in
    announce "session.created" (record cs' { pending_counts = put session_id 0 cs'.pending_counts })

-- UnregisterSession
unfoldable pub unregister_session : String → CredentialStore → CredentialStore
unfolding remove_session_locked announce
unregister_session session_id cs = announce "session.deleted" (remove_session_locked session_id cs)

-- RegisterGlobalCredential
unfoldable pub register_global_credential : Str → Str → String → CredentialStore → CredentialStore
unfolding put
register_global_credential placeholder value label cs = record cs {
  lookup = put placeholder value cs.lookup;
  labels_map = put placeholder label cs.labels_map;
}

-- UnregisterGlobalCredential
unfoldable pub unregister_global_credential : Str → CredentialStore → CredentialStore
unfolding delete
unregister_global_credential placeholder cs = record cs {
  lookup = delete placeholder cs.lookup;
  labels_map = delete placeholder cs.labels_map;
}

-- Size
unfoldable pub size : CredentialStore → ℕ
size cs = length cs.lookup

distinct_values : List (Str × String) → List String
unfolding any
distinct_values [] = []
distinct_values ((placeholder, sid) ∷ entries) =
    let seen = distinct_values entries in if any (λ s. s == sid) seen then seen else sid ∷ seen

-- SessionCount
unfoldable pub session_count : CredentialStore → ℕ
unfolding distinct_values
session_count cs = length (distinct_values cs.session_map)
