-- ===== src/DockerResolver/Staleness.antt =====
-- How old a name can be that the resolver returns.
use greyproxy.Prelude.{
  ℕ, ◌+◌, ◌<◌, ◌≡◌, ◌≢◌, refl, sym, ap, ◌∙◌, Option, none, some, List, [], ◌∷◌, ltb, ◌==◌, nat_eq,
  list_eq, list_eqb_iff, arith, ◌⊎◌, inl, inr, Bool-cases, In,
}
use greyproxy.Go.Strings.{Str}
use greyproxy.Go.Maps.{get, get-put}
use greyproxy.DockerResolver.{
  DockerCacheEntry, Cache, DockerContainerSummary, find_container, Answer, fresh, store_found,
  on_answer, or_query, resolve_ip,
}

-- A call: its time, its address, and what Docker answers if it is asked.
abbrev pub Call : Type 0
Call = ℕ × Str × Answer

-- The cache after the calls, the last one in front.
abbrev pub after : ℕ → List Call → Cache
after ttl [] = []
after ttl ((now, ip, answer) ∷ calls) = (resolve_ip ttl now ip answer (after ttl calls)).0

-- Docker's answer has the container under the address.
abbrev pub Names : Str → Str × Str → Answer → Type 0
Names ip found none = ⊥
Names ip found (some containers) = find_container ip containers ≡ found

-- The entry stands in the answer of an earlier call.
IsKept : ℕ → Str → List Call → DockerCacheEntry → Type 0
IsKept ttl ip calls e =
    (t : ℕ) × (answer : Answer) × In (t, ip, answer) calls
    × (e.expires_at ≡ t + ttl)
    × Names ip (e.container_name, e.container_id) answer

-- The entry was there before the call, or it is what Docker answers at its time.
module _ (ttl now : ℕ) (key ip : Str) (cache : Cache) (e : DockerCacheEntry) where
  abbrev Stored : Answer → Type 0
  Stored answer =
      (get ip cache ≡ some e)
      ⊎ ((key ≡ ip)
          × (e.expires_at ≡ now + ttl)
          × Names ip (e.container_name, e.container_id) answer)

  store_found-Stored :
      (name id : Str) (containers : List DockerContainerSummary)
      → find_container key containers ≡ (name, id)
      → get ip (store_found (now + ttl) key cache (name, id)).0 ≡ some e
      → Stored (some containers)
  store_found-Stored name id containers f h = elim (Bool-cases (name == [])) [
    | inl t ↦ inl (rw t at h)
    | inr t ↦ elim (Bool-cases (key == ip)) [
      | inr q ↦ inl (sym (get-put key ip _ cache ∙ rw q) ∙ rw t at h)
      | inl q ↦
          let new : DockerCacheEntry = record {
            container_name = name;
            container_id = id;
            expires_at = now + ttl;
          } in
          let same : key ≡ ip = (list_eqb_iff key ip).0 q in
          let stored : some new ≡ some e = sym (get-put key ip new cache ∙ rw q) ∙ rw t at h in
          let found : find_container ip containers ≡ (name, id) = rw same at f in
          inr (same, ground (arith, stored), found ∙ ground (arith, stored))
    ]
  ]

  on_answer-Stored :
      (answer : Answer) → get ip (on_answer (now + ttl) key cache answer).0 ≡ some e → Stored answer
  on_answer-Stored none h = inl h
  on_answer-Stored (some containers) h =
      store_found-Stored (find_container key containers).0 (find_container key containers).1
        containers refl h

  or_query-Stored :
      (answer : Answer) (known : Option (Str × Str))
      → get ip (or_query (now + ttl) key answer cache known).0 ≡ some e
      → Stored answer
  or_query-Stored answer (some found) h = inl h
  or_query-Stored answer none h = on_answer-Stored answer h

  resolve-Stored :
      (answer : Answer) → get ip (resolve_ip ttl now key answer cache).0 ≡ some e → Stored answer
  unfolding resolve_ip
  resolve-Stored answer h = elim (Bool-cases (key == [])) [
    | inl t ↦ inl (rw t at h)
    | inr t ↦ or_query-Stored answer (fresh now (get key cache)) (rw t at h)
  ]

after-IsKept :
    (ttl : ℕ) (ip : Str) (calls : List Call) (e : DockerCacheEntry)
    → get ip (after ttl calls) ≡ some e
    → IsKept ttl ip calls e
unfolding get IsKept
after-IsKept ttl ip [] e h = cc
after-IsKept ttl ip ((now, key, answer) ∷ calls) e h =
    elim (resolve-Stored ttl now key ip (after ttl calls) e answer h) [
      | inl old ↦ let (t, a, i, x, n) = after-IsKept ttl ip calls e old in (t, a, inr i, x, n)
      | inr (same, x, n) ↦ (now, answer, inl (ap (λ k. (now, k, answer)) (sym same)), x, n)
    ]

-- A name that is not empty comes out of Docker's answer or of the cache.
module _ (expires now : ℕ) (ip : Str) (cache : Cache) (found : Str × Str)
    (named : found.0 ≢ []) where
  store_found-answer :
      (name id : Str) → (store_found expires ip cache (name, id)).1 ≡ found → (name, id) ≡ found
  store_found-answer name id h = elim (Bool-cases (name == [])) [
    | inl t ↦ absurd (named (ap (λ f. f.0) (sym (rw t at h))))
    | inr t ↦ rw t at h
  ]

  on_answer-Names :
      (answer : Answer) → (on_answer expires ip cache answer).1 ≡ found → Names ip found answer
  on_answer-Names none h = absurd (named (ap (λ f. f.0) (sym h)))
  on_answer-Names (some containers) h =
      store_found-answer (find_container ip containers).0 (find_container ip containers).1 h

  Cached : Type 0
  Cached =
      (e : DockerCacheEntry) × (get ip cache ≡ some e)
      × (now < e.expires_at)
      × ((e.container_name, e.container_id) ≡ found)

  fresh-Cached :
      (entry : Option DockerCacheEntry)
      → get ip cache ≡ entry
      → fresh now entry ≡ some found
      → Cached
  unfolding Cached
  fresh-Cached none g h = cc
  fresh-Cached (some e) g h = elim (Bool-cases (ltb now e.expires_at)) [
    | inl t ↦
        let same : some (e.container_name, e.container_id) ≡ some found = rw t at h in
        (e, g, ground (arith, t), cc same)
    | inr t ↦ cc (rw t at h)
  ]

  or_query-found :
      (answer : Answer) (known : Option (Str × Str))
      → fresh now (get ip cache) ≡ known
      → (or_query expires ip answer cache known).1 ≡ found
      → Names ip found answer ⊎ Cached
  or_query-found answer (some f) g h = inr (fresh-Cached (get ip cache) refl (g ∙ ap some h))
  or_query-found answer none g h = inl (on_answer-Names answer h)

  resolve-found :
      (ttl : ℕ) (answer : Answer)
      → now + ttl ≡ expires
      → (resolve_ip ttl now ip answer cache).1 ≡ found
      → Names ip found answer ⊎ Cached
  unfolding resolve_ip
  resolve-found ttl answer x h = elim (Bool-cases (ip == [])) [
    | inl t ↦ absurd (named (ap (λ f. f.0) (sym (rw t at h))))
    | inr t ↦ or_query-found answer (fresh now (get ip cache)) refl (rw (t, x) at h)
  ]

pub resolve_ip-not_stale :
    (ttl now : ℕ) (ip : Str) (answer : Answer) (calls : List Call) (found : Str × Str)
    → found.0 ≢ []
    → (resolve_ip ttl now ip answer (after ttl calls)).1 ≡ found
    → Names ip found answer
      ⊎ ((t : ℕ) × (earlier : Answer) × In (t, ip, earlier) calls
          × (now < t + ttl)
          × Names ip found earlier)
unfolding Cached IsKept
resolve_ip-not_stale ttl now ip answer calls found n h =
    elim (resolve-found (now + ttl) now ip (after ttl calls) found n ttl answer refl h) [
      | inl names ↦ inl names
      | inr (e, g, before, same) ↦
          let (t, a, i, x, names) = after-IsKept ttl ip calls e g in
          inr (t, a, i, omega (arith, x, before), rw same at names)
    ]
