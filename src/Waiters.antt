-- ===== src/Waiters.antt =====
-- internal/greyproxy/waiters.go: how many connections wait for each pending request. A map is an
-- association list with the last binding of a key in front.
pub mod Balance
use greyproxy.Prelude.{
  ℕ, suc, ◌+◌, ◌-◌, Bool, true, false, not, List, [], ◌∷◌, ◌++◌, leb, ◌==◌, list_eq, if◌then◌else◌,
  ℤ, keep,
}
use greyproxy.Go.Strings.{Str}
use greyproxy.Events.{Event, waiters_changed}
use greyproxy.Store.Approval.{port_text}

abbrev pub Counts : Type 0
Counts = List (Str × ℕ)

-- `counts[key]`: 0 if there is none.
unfoldable pub count_of : Str → Counts → ℕ
count_of key [] = 0
count_of key ((k, n) ∷ counts) = if k == key then n else count_of key counts

unfoldable pub delete : Str → Counts → Counts
unfolding keep
delete key counts = keep (λ (k, n). not (k == key)) counts

unfoldable pub set_count : Str → ℕ → Counts → Counts
unfolding delete
set_count key n counts = (key, n) ∷ delete key counts

-- waiterKey
unfoldable pub waiter_key : Str → Str → ℤ → Str
unfolding port_text
waiter_key container host port = container ++ b'|' ∷ (host ++ b'|' ∷ port_text port)

-- The function that Add returns, with its sync.Once.
pub record Waiter : Type 0 where
  pub container_name : Str
  pub host : Str
  pub port : ℤ
  pub released : Bool

abbrev pub key_of : Waiter → Str
key_of w = waiter_key w.container_name w.host w.port

changed : Waiter → ℕ → ℕ → Event
changed w prev cur = waiters_changed (record {
  container_name = w.container_name;
  host = w.host;
  port = w.port;
  previous_count = prev;
  current_count = cur;
})

-- Add, with the event that it publishes.
unfoldable pub add : Str → Str → ℤ → Counts → Waiter × Counts × List Event
unfolding count_of set_count waiter_key changed
add container host port counts =
    let w : Waiter = record {
      container_name = container;
      host = host;
      port = port;
      released = false;
    } in
    let prev = count_of (key_of w) counts in
    (w, set_count (key_of w) (prev + 1) counts, changed w prev (prev + 1) ∷ [])

-- The decrement: a count that does not stay above 0 is deleted.
unfoldable pub decrement : Str → Counts → Counts
unfolding count_of set_count delete
decrement key counts =
    if leb (count_of key counts) 1
    then delete key counts
    else set_count key (count_of key counts - 1) counts

-- A call of the function that Add returned; the second call does nothing.
unfoldable pub done : Waiter → Counts → Waiter × Counts × List Event
unfolding decrement changed
done w counts = if w.released then (w, counts, []) else (
  record w { released = true },
  decrement (key_of w) counts,
  changed w (count_of (key_of w) counts) (count_of (key_of w) counts - 1) ∷ [],
)

-- Get
unfoldable pub get : Str → Str → ℤ → Counts → ℕ
unfolding count_of waiter_key
get container host port counts = count_of (waiter_key container host port) counts
