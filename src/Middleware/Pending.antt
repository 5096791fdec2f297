-- ===== src/Middleware/Pending.antt =====
-- internal/greyproxy/middleware/pending.go: the events of a request that wait for its transaction.
-- Times are seconds.
use greyproxy.Prelude.{
  true, false, ◌&&◌, ℕ, ◌+◌, String, Bool, not, Option, none, some, List, [], ◌∷◌, ◌++◌, ltb, ◌==◌,
  nat_eq, list_eq, if◌then◌else◌, keep,
}
use greyproxy.Go.Strings.{Str}
use greyproxy.Go.Maps.{get, put, delete}

pub record PendingEvent : Type 0 where
  pub sequence : ℕ
  pub middleware_name : String
  pub middleware_url : String
  pub hook : String
  pub action : String
  pub status_code : ℕ
  pub headers_changed : List Str
  pub body_rewritten : Bool
  pub duration_ms : ℕ
  pub created_at : ℕ

pub record Bucket : Type 0 where
  pub events : List PendingEvent
  pub expires : ℕ

abbrev pub Pending : Type 0
Pending = List (Str × Bucket)

abbrev pub pending_ttl : ℕ
pending_ttl = 60

abbrev pub with_event : ℕ → PendingEvent → Option Bucket → Bucket
with_event now ev none = record { events = ev ∷ []; expires = now + pending_ttl }
with_event now ev (some b) = record b { events = b.events ++ ev ∷ [] }

-- StashEvent
unfoldable pub stash_event : ℕ → Str → PendingEvent → Pending → Pending
unfolding get put
stash_event now id ev pending =
    if id == [] then pending else put id (with_event now ev (get id pending)) pending

abbrev pub events_in : Option Bucket → List PendingEvent
events_in none = []
events_in (some b) = b.events

-- DrainEvents
unfoldable pub drain_events : Str → Pending → Pending × List PendingEvent
unfolding get delete
drain_events id pending =
    if id == [] then (pending, []) else (delete id pending, events_in (get id pending))

-- One tick of startPendingSweep.
unfoldable pub sweep : ℕ → Pending → Pending
unfolding keep
sweep now pending = keep (λ (id, b). not (ltb b.expires now)) pending

unfoldable pub equal_string_slices : List Str → List Str → Bool
equal_string_slices [] [] = true
equal_string_slices [] (w ∷ ws) = false
equal_string_slices (v ∷ vs) [] = false
equal_string_slices (v ∷ vs) (w ∷ ws) = v == w && equal_string_slices vs ws

-- The header was there, with the same values.
abbrev same_values : List Str → Option (List Str) → Bool
same_values vs none = false
same_values vs (some old) = equal_string_slices old vs

changed_names : List (Str × List Str) → List (Str × List Str) → List Str
unfolding get equal_string_slices
changed_names before [] = []
changed_names before ((k, vs) ∷ after) =
    let rest = changed_names before after in
    if same_values vs (get k before) then rest else k ∷ rest

abbrev is_gone : Option (List Str) → Bool
is_gone none = true
is_gone (some vs) = false

gone_names : List (Str × List Str) → List (Str × List Str) → List Str
unfolding get
gone_names after [] = []
gone_names after ((k, vs) ∷ before) =
    let rest = gone_names after before in if is_gone (get k after) then k ∷ rest else rest

-- DiffHeaderNames, in the order of the range.
unfoldable pub diff_header_names : List (Str × List Str) → List (Str × List Str) → List Str
unfolding changed_names gone_names
diff_header_names before after = changed_names before after ++ gone_names after before

pub data Call : Type 0 where
  stashed : ℕ → Str → PendingEvent → Call
  drained : Str → Call
  swept : ℕ → Call

-- The events after the calls, the last one in front.
abbrev pub after : List Call → Pending
after [] = []
after (stashed now id ev ∷ calls) = stash_event now id ev (after calls)
after (drained id ∷ calls) = (drain_events id (after calls)).0
after (swept now ∷ calls) = sweep now (after calls)

abbrev pub unless_expired : ℕ → Option Bucket → Option Bucket
unless_expired now none = none
unless_expired now (some b) = if ltb b.expires now then none else some b

-- What has been stashed for a request since it was last drained or swept away.
abbrev pub waiting : Str → List Call → Option Bucket
waiting id [] = none
waiting id (stashed now key ev ∷ calls) =
    if key == id then some (with_event now ev (waiting id calls)) else waiting id calls
waiting id (drained key ∷ calls) = if key == id then none else waiting id calls
waiting id (swept now ∷ calls) = unless_expired now (waiting id calls)
