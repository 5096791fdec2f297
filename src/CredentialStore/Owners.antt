-- ===== src/CredentialStore/Owners.antt =====
-- The store against the history of its calls, where each placeholder has one owner: a session, or
-- none for a global credential.
use greyproxy.Prelude.{
  String, ◌≡◌, refl, sym, ap, ◌∙◌, false, Option, none, some, List, [], ◌∷◌, ◌==◌, list_eq,
  string_eq, if◌then◌else◌, All, Bool-cases, inl, inr,
}
use greyproxy.Go.Strings.{Str}
use greyproxy.Go.Maps.{get, get-put, get-delete}
use greyproxy.Events.{EventBus}
use greyproxy.CredentialStore.{
  CredentialStore, empty_store, add_mapping, add_mappings, remove_session_locked, register_session,
  unregister_session, register_global_credential, unregister_global_credential,
}
use greyproxy.CredentialStore.Ownership.{
  Owner, owned_by, owned_by-some, announce_rest, IsOwned, get-remove_session,
  remove_session-IsOwned, add_mappings-IsOwned, register_global-IsOwned, unregister_global-IsOwned,
  announce-IsOwned,
}

pub data Call : Type 0 where
  registered : String → List (Str × String) → List (Str × Str) → Call
  unregistered : String → Call
  registered_global : Str → Str → String → Call
  unregistered_global : Str → Call

-- The calls, the last one in front.
abbrev pub after : Option EventBus → List Call → CredentialStore
after bus [] = empty_store bus
after bus (registered sid labels m ∷ calls) = register_session sid labels m (after bus calls)
after bus (unregistered sid ∷ calls) = unregister_session sid (after bus calls)
after bus (registered_global p v label ∷ calls) =
    register_global_credential p v label (after bus calls)
after bus (unregistered_global p ∷ calls) = unregister_global_credential p (after bus calls)

abbrev pub Respects : Owner → Call → Type 0
Respects own (registered sid labels m) = All (λ e. own e.0 ≡ some sid) m
Respects own (unregistered sid) = Unit
Respects own (registered_global p v label) = own p ≡ none
Respects own (unregistered_global p) = own p ≡ none

-- The value of the placeholder in a map, or else `d`.
abbrev pub mapped : Str → List (Str × Str) → Option Str → Option Str
mapped p [] d = d
mapped p ((q, r) ∷ m) d = mapped p m (if q == p then some r else d)

-- The value that the last call about the placeholder's owner left.
abbrev pub current : Owner → Str → List Call → Option Str
current own p [] = none
current own p (registered sid labels m ∷ calls) =
    if owned_by own sid p then mapped p m none else current own p calls
current own p (unregistered sid ∷ calls) = if owned_by own sid p then none else current own p calls
current own p (registered_global q v label ∷ calls) = if q == p then some v else current own p calls
current own p (unregistered_global q ∷ calls) = if q == p then none else current own p calls

module _ (own : Owner) where
  after-IsOwned :
      (bus : Option EventBus) (calls : List Call)
      → All (Respects own) calls
      → IsOwned own (after bus calls)
  unfolding register_session unregister_session get
  after-IsOwned bus [] h = record { owners = tt; covered = λ p sid r e found. cc }
  after-IsOwned bus (registered sid labels m ∷ calls) h =
      let ih = remove_session-IsOwned own sid (after bus calls) (after-IsOwned bus calls h.1) in
      let added = add_mappings-IsOwned own sid labels m _ h.0 ih in
      announce-IsOwned own _ _ (record { owners = added.owners; covered = added.covered })
  after-IsOwned bus (unregistered sid ∷ calls) h =
      announce-IsOwned own _ _
        (remove_session-IsOwned own sid (after bus calls) (after-IsOwned bus calls h.1))
  after-IsOwned bus (registered_global p v label ∷ calls) h =
      register_global-IsOwned own p v label (after bus calls) h.0 (after-IsOwned bus calls h.1)
  after-IsOwned bus (unregistered_global p ∷ calls) h =
      unregister_global-IsOwned own p (after bus calls) (after-IsOwned bus calls h.1)

  get-add_mappings :
      (sid : String) (labels : List (Str × String)) (p : Str) (m : List (Str × Str))
      (cs : CredentialStore)
      → get p (add_mappings sid labels m cs).lookup ≡ mapped p m (get p cs.lookup)
  unfolding add_mappings add_mapping
  get-add_mappings sid labels p [] cs = refl
  get-add_mappings sid labels p ((q, r) ∷ m) cs =
      get-add_mappings sid labels p m (add_mapping sid labels q r cs)
      ∙ ap (mapped p m) (get-put q p r cs.lookup)

  mapped-other :
      (sid : String) (p : Str) (m : List (Str × Str)) (d : Option Str)
      → All (λ e. own e.0 ≡ some sid) m
      → owned_by own sid p ≡ false
      → mapped p m d ≡ d
  mapped-other sid p [] d h n = refl
  mapped-other sid p ((q, r) ∷ m) d h n = elim (Bool-cases (q == p)) [
    | inl t ↦ cc (n, owned_by-some own sid p (ap own (sym ((list_eq.same_iff q p).0 t)) ∙ h.0))
    | inr t ↦ rw t (mapped-other sid p m d h.1 n)
  ]

  -- A session's values after a registration, from those that are left when its old ones are gone.
  mapped_current :
      (sid : String) (p : Str) (m : List (Str × Str)) (before : Option Str)
      → All (λ e. own e.0 ≡ some sid) m
      → mapped p m (if owned_by own sid p then none else before)
        ≡ (if owned_by own sid p then mapped p m none else before)
  mapped_current sid p m before h = elim (Bool-cases (owned_by own sid p)) [
    | inl o ↦ rw o
    | inr n ↦ rw n (mapped-other sid p m before h n)
  ]

  -- As long as each placeholder has one owner, a session or the table of global credentials, the
  -- store holds for it exactly the value of the last call about its owner: registering a session
  -- replaces all that it had, unregistering it leaves none of its values, and neither touches the
  -- values of other sessions or of global credentials.
  pub get-current :
      (bus : Option EventBus) (p : Str) (calls : List Call)
      → All (Respects own) calls
      → get p (after bus calls).lookup ≡ current own p calls
  unfolding register_session unregister_session register_global_credential
      unregister_global_credential get
  get-current bus p [] h = refl
  get-current bus p (registered sid labels m ∷ calls) h =
      let cs = after bus calls in
      let removed = get-remove_session own sid p cs (after-IsOwned bus calls h.1) in
      ap (get p) (announce_rest _ _).0
      ∙ get-add_mappings sid labels p m (remove_session_locked sid cs)
      ∙ ap (mapped p m) removed
      ∙ mapped_current sid p m (get p cs.lookup) h.0
      ∙ rw (get-current bus p calls h.1)
  get-current bus p (unregistered sid ∷ calls) h =
      ap (get p) (announce_rest _ _).0
      ∙ get-remove_session own sid p (after bus calls) (after-IsOwned bus calls h.1)
      ∙ rw (get-current bus p calls h.1)
  get-current bus p (registered_global q v label ∷ calls) h =
      get-put q p v _ ∙ rw (get-current bus p calls h.1)
  get-current bus p (unregistered_global q ∷ calls) h =
      get-delete q p _ ∙ rw (get-current bus p calls h.1)
