-- ===== src/CredentialStore/Ownership.antt =====
-- What the operations of the store do to the placeholder of an owner.
use greyproxy.Prelude.{
  String, ◌≡◌, refl, sym, ap, ◌∙◌, Bool, true, false, ◌&&◌, Option, none, some, List, [], ◌∷◌, ◌==◌,
  list_eq, string_eq, arith, if◌then◌else◌, any, All, All-keep, Bool-cases, Option-cases, inl, inr,
  ==_refl,
}
use greyproxy.Go.Strings.{Str}
use greyproxy.Go.Maps.{get, put, delete, get-put, get-delete}
use greyproxy.CredentialStore.{
  CredentialStore, announce, add_mapping, add_mappings, remove_placeholder, remove_owned,
  remove_session_locked, register_global_credential, unregister_global_credential,
}

-- The owner of a placeholder; `none` is the table of the global credentials.
abbrev pub Owner : Type 0
Owner = Str → Option String

abbrev pub is_owner : String → Option String → Bool
is_owner sid none = false
is_owner sid (some o) = o == sid

abbrev pub owned_by : Owner → String → Str → Bool
owned_by own sid p = is_owner sid (own p)

pub announce_rest :
    (kind : String) (cs : CredentialStore)
    → ((announce kind cs).lookup ≡ cs.lookup) × ((announce kind cs).session_map ≡ cs.session_map)
unfolding announce
announce_rest kind cs = ground arith

abbrev in_entries : String → Str → List (Str × String) → Bool
in_entries sid p entries = any (λ (q, s). s == sid && q == p) entries

-- What the loop of removeSessionLocked leaves of a placeholder.
get-remove_owned :
    (sid : String) (p : Str) (entries : List (Str × String)) (cs : CredentialStore)
    → (get p (remove_owned sid entries cs).lookup
        ≡ (if in_entries sid p entries then none else get p cs.lookup))
      × (get p (remove_owned sid entries cs).session_map
          ≡ (if in_entries sid p entries then none else get p cs.session_map))
unfolding remove_owned remove_placeholder any
get-remove_owned sid p [] cs = (refl, refl)
get-remove_owned sid p ((q, s) ∷ entries) cs = elim (Bool-cases (s == sid)) [
  | inl t ↦
      let ih = get-remove_owned sid p entries (remove_placeholder q cs) in
      rw (t, remove_owned)
        (
          ih.0 ∙ ground (arith, get-delete q p cs.lookup),
          ih.1 ∙ ground (arith, get-delete q p cs.session_map),
        )
  | inr t ↦ rw (t, remove_owned) (get-remove_owned sid p entries cs)
]

pub record IsOwned (own : Owner) (cs : CredentialStore) : Type 0 where
  pub owners : All (λ e. own e.0 ≡ some e.1) cs.session_map
  pub covered :
      (p : Str) (sid : String) (r : Str)
      → own p ≡ some sid
      → get p cs.lookup ≡ some r
      → get p cs.session_map ≡ some sid

in_entries-get :
    (sid : String) (p : Str) (entries : List (Str × String))
    → get p entries ≡ some sid
    → in_entries sid p entries ≡ true
unfolding get any
in_entries-get sid p [] h = cc
in_entries-get sid p ((q, s) ∷ entries) h = elim (Bool-cases (q == p)) [
  | inl t ↦ let e : s ≡ sid = cc (rw t at h) in rw (t, e, ==_refl sid)
  | inr t ↦ ground (arith, t, in_entries-get sid p entries (rw t at h))
]

owned_by_iff :
    (own : Owner) (sid : String) (p : Str) → (owned_by own sid p ≡ true) → own p ≡ some sid
owned_by_iff own sid p h = elim (Option-cases (own p)) [
  | inl n ↦ cc (rw n at h)
  | inr (o, e) ↦ e ∙ ap some ((string_eq.same_iff o sid).0 (rw e at h))
]

pub owned_by-some :
    (own : Owner) (sid : String) (p : Str) → own p ≡ some sid → owned_by own sid p ≡ true
owned_by-some own sid p e = rw (e, ==_refl sid)

module _ (own : Owner) where
  in_entries-other :
      (sid : String) (p : Str) (entries : List (Str × String))
      → All (λ e. own e.0 ≡ some e.1) entries
      → owned_by own sid p ≡ false
      → in_entries sid p entries ≡ false
  unfolding any
  in_entries-other sid p [] h n = refl
  in_entries-other sid p ((q, s) ∷ entries) h n = elim (Bool-cases (s == sid && q == p)) [
    | inr t ↦ rw t (in_entries-other sid p entries h.1 n)
    | inl t ↦
        let at_p : (s == sid) ≡ true = ground (arith, t) in
        let here : (q == p) ≡ true = ground (arith, t) in
        let e : own p ≡ some sid =
          ap own (sym ((list_eq.same_iff q p).0 here))
          ∙ h.0
          ∙ ap some ((string_eq.same_iff s sid).0 at_p) in
        cc (n, owned_by-some own sid p e)
  ]

  -- What removeSessionLocked leaves of a placeholder in the lookup map.
  pub get-remove_session :
      (sid : String) (p : Str) (cs : CredentialStore)
      → IsOwned own cs
      → get p (remove_session_locked sid cs).lookup
        ≡ (if owned_by own sid p then none else get p cs.lookup)
  unfolding remove_session_locked
  get-remove_session sid p cs h = elim (Bool-cases (owned_by own sid p)) [
    | inr n ↦
        (get-remove_owned sid p cs.session_map cs).0
        ∙ rw (n, in_entries-other sid p cs.session_map h.owners n)
    | inl o ↦ elim (Option-cases (get p cs.lookup)) [
      | inl absent ↦ (get-remove_owned sid p cs.session_map cs).0 ∙ rw (o, absent) (ground arith)
      | inr (r, found) ↦
          let known = h.covered p sid r (owned_by_iff own sid p o) found in
          (get-remove_owned sid p cs.session_map cs).0
          ∙ rw (o, in_entries-get sid p cs.session_map known)
    ]
  ]

  owners-remove_owned :
      (sid : String) (entries : List (Str × String)) (cs : CredentialStore)
      → All (λ e. own e.0 ≡ some e.1) cs.session_map
      → All (λ e. own e.0 ≡ some e.1) (remove_owned sid entries cs).session_map
  unfolding remove_owned remove_placeholder delete
  owners-remove_owned sid [] cs h = h
  owners-remove_owned sid ((q, s) ∷ entries) cs h = elim (Bool-cases (s == sid)) [
    | inl t ↦
        rw (t, remove_owned)
          (owners-remove_owned sid entries (remove_placeholder q cs)
            (All-keep _ _ cs.session_map h))
    | inr t ↦ rw (t, remove_owned) (owners-remove_owned sid entries cs h)
  ]

  pub remove_session-IsOwned :
      (sid : String) (cs : CredentialStore)
      → IsOwned own cs
      → IsOwned own (remove_session_locked sid cs)
  unfolding remove_session_locked
  remove_session-IsOwned sid cs h = record {
    owners = owners-remove_owned sid cs.session_map cs h.owners;
    covered = λ p o r e found.
        let (looked, mapped_to) = get-remove_owned sid p cs.session_map cs in
        elim (Bool-cases (in_entries sid p cs.session_map)) [
          | inl gone ↦ cc (sym looked ∙ found, gone)
          | inr kept ↦ mapped_to ∙ rw kept (h.covered p o r e (ground (arith, kept, looked, found)))
        ];
  }

  covered_put :
      (sid : String) (q r : Str) (cs : CredentialStore)
      → own q ≡ some sid
      → IsOwned own cs
      → (p : Str) (o : String) (r' : Str) → own p ≡ some o
      → get p (put q r cs.lookup) ≡ some r'
      → get p (put q sid cs.session_map) ≡ some o
  covered_put sid q r cs mine h p o r' e found = elim (Bool-cases (q == p)) [
    | inl t ↦
        let same : q ≡ p = (list_eq.same_iff q p).0 t in
        get-put q p sid cs.session_map ∙ rw t (sym mine ∙ ap own same ∙ e)
    | inr t ↦
        get-put q p sid cs.session_map
        ∙ rw t (h.covered p o r' e (ground (arith, t, found, get-put q p r cs.lookup)))
  ]

  pub add_mapping-IsOwned :
      (sid : String) (labels : List (Str × String)) (q r : Str) (cs : CredentialStore)
      → own q ≡ some sid
      → IsOwned own cs
      → IsOwned own (add_mapping sid labels q r cs)
  unfolding add_mapping put delete
  add_mapping-IsOwned sid labels q r cs o h = record {
    owners = (o, All-keep _ _ cs.session_map h.owners);
    covered = covered_put sid q r cs o h;
  }

  pub add_mappings-IsOwned :
      (sid : String) (labels : List (Str × String)) (m : List (Str × Str)) (cs : CredentialStore)
      → All (λ e. own e.0 ≡ some sid) m
      → IsOwned own cs
      → IsOwned own (add_mappings sid labels m cs)
  unfolding add_mappings
  add_mappings-IsOwned sid labels [] cs o h = h
  add_mappings-IsOwned sid labels ((q, r) ∷ m) cs o h =
      add_mappings-IsOwned sid labels m (add_mapping sid labels q r cs) o.1
        (add_mapping-IsOwned sid labels q r cs o.0 h)

  pub register_global-IsOwned :
      (q v : Str) (label : String) (cs : CredentialStore)
      → own q ≡ none
      → IsOwned own cs
      → IsOwned own (register_global_credential q v label cs)
  unfolding register_global_credential
  register_global-IsOwned q v label cs o h = record {
    owners = h.owners;
    covered = λ p sid r e found. elim (Bool-cases (q == p)) [
      | inl t ↦ cc (e, o, ap own ((list_eq.same_iff q p).0 t))
      | inr t ↦ h.covered p sid r e (ground (arith, t, found, get-put q p v cs.lookup))
    ];
  }

  pub unregister_global-IsOwned :
      (q : Str) (cs : CredentialStore)
      → IsOwned own cs
      → IsOwned own (unregister_global_credential q cs)
  unfolding unregister_global_credential
  unregister_global-IsOwned q cs h = record {
    owners = h.owners;
    covered =
        λ p sid r e found. h.covered p sid r e (ground (arith, found, get-delete q p cs.lookup));
  }

  pub announce-IsOwned :
      (kind : String) (cs : CredentialStore) → IsOwned own cs → IsOwned own (announce kind cs)
  announce-IsOwned kind cs h =
      let (looked, mapped_to) = announce_rest kind cs in
      record {
        owners = rw mapped_to h.owners;
        covered = λ p sid r e found. rw mapped_to (h.covered p sid r e (rw looked at found));
      }
