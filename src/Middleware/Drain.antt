-- ===== src/Middleware/Drain.antt =====
-- The events of a request against the history of the calls.
use greyproxy.Prelude.{
  ℕ, ◌≡◌, refl, sym, ap, ◌∙◌, true, false, none, some, List, [], ◌∷◌, ltb, ◌==◌, list_eq,
  list_eqb_iff, if◌then◌else◌, keep, Bool-cases, inl, inr, Pairs-keep, ==_ne, ◌≢◌, All, All-keep,
}
use greyproxy.Go.Strings.{Str}
use greyproxy.Go.Maps.{get, get-put, get-delete, Unique, put-Unique, delete-Unique, get-absent}
use greyproxy.Middleware.Pending.{
  PendingEvent, Bucket, Pending, with_event, stash_event, events_in, drain_events, sweep, Call,
  stashed, drained, swept, after, unless_expired, waiting,
}

stash_event-Unique :
    (now : ℕ) (id : Str) (ev : PendingEvent) (pending : Pending)
    → Unique pending
    → Unique (stash_event now id ev pending)
unfolding stash_event
stash_event-Unique now id ev pending u = elim (Bool-cases (id == [])) [
  | inl t ↦ rw t u
  | inr t ↦ rw t (put-Unique id (with_event now ev (get id pending)) pending u)
]

drain_events-Unique :
    (id : Str) (pending : Pending) → Unique pending → Unique (drain_events id pending).0
unfolding drain_events
drain_events-Unique id pending u = elim (Bool-cases (id == [])) [
  | inl t ↦ rw t u
  | inr t ↦ rw t (delete-Unique id pending u)
]

after-Unique : (calls : List Call) → Unique (after calls)
unfolding sweep
after-Unique [] = tt
after-Unique (stashed now id ev ∷ calls) =
    stash_event-Unique now id ev (after calls) (after-Unique calls)
after-Unique (drained id ∷ calls) = drain_events-Unique id (after calls) (after-Unique calls)
after-Unique (swept now ∷ calls) = Pairs-keep _ _ (after calls) (after-Unique calls)

get-sweep :
    (now : ℕ) (id : Str) (pending : Pending)
    → Unique pending
    → get id (sweep now pending) ≡ unless_expired now (get id pending)
unfolding get sweep keep
get-sweep now id [] u = refl
get-sweep now id ((k, b) ∷ pending) u = elim (Bool-cases (ltb b.expires now)) [
  | inr q ↦ elim (Bool-cases (k == id)) [
    | inl t ↦ rw (q, t, q)
    | inr t ↦ rw (q, t) (get-sweep now id pending u.1)
  ]
  | inl q ↦ elim (Bool-cases (k == id)) [
    | inl t ↦
        let same : k ≡ id = (list_eqb_iff k id).0 t in
        let gone : All (λ (e : Str × Bucket). (k == e.0) ≡ false) pending = u.0 in
        let apart : All (λ (e : Str × Bucket). (id == e.0) ≡ false) pending = rw same at gone in
        rw (q, t, q) (get-absent id _ (All-keep _ _ pending apart))
    | inr t ↦ rw (q, t) (get-sweep now id pending u.1)
  ]
]

empty_apart : (key id : Str) → (key == []) ≡ true → id ≢ [] → (key == id) ≡ false
empty_apart key id t n = ==_ne key id (λ e. n (sym e ∙ (list_eqb_iff key []).0 t))

get-stash :
    (now : ℕ) (key id : Str) (ev : PendingEvent) (pending : Pending)
    → id ≢ []
    → get id (stash_event now key ev pending)
      ≡ (if key == id then some (with_event now ev (get id pending)) else get id pending)
unfolding stash_event
get-stash now key id ev pending n = elim (Bool-cases (key == [])) [
  | inl t ↦ rw (t, empty_apart key id t n)
  | inr t ↦ rw t (
      get-put key id (with_event now ev (get key pending)) pending ∙ elim (Bool-cases (key == id)) [
        | inl q ↦
            rw q (ap (λ k. some (with_event now ev (get k pending))) ((list_eqb_iff key id).0 q))
        | inr q ↦ rw q
      ])
]

get-drain :
    (key id : Str) (pending : Pending)
    → id ≢ []
    → get id (drain_events key pending).0 ≡ (if key == id then none else get id pending)
unfolding drain_events
get-drain key id pending n = elim (Bool-cases (key == [])) [
  | inl t ↦ rw (t, empty_apart key id t n)
  | inr t ↦ rw t (get-delete key id pending)
]

get-after : (id : Str) (calls : List Call) → id ≢ [] → get id (after calls) ≡ waiting id calls
unfolding get
get-after id [] n = refl
get-after id (stashed now key ev ∷ calls) n =
    get-stash now key id ev (after calls) n ∙ rw (get-after id calls n)
get-after id (drained key ∷ calls) n = get-drain key id (after calls) n ∙ rw (get-after id calls n)
get-after id (swept now ∷ calls) n =
    get-sweep now id (after calls) (after-Unique calls)
    ∙ ap (unless_expired now) (get-after id calls n)

pub drain_events-waiting :
    (id : Str) (calls : List Call)
    → id ≢ []
    → (drain_events id (after calls)).1 ≡ events_in (waiting id calls)
unfolding drain_events
drain_events-waiting id calls n = rw (==_ne id [] n) (ap events_in (get-after id calls n))
