-- ===== src/Waiters/Balance.antt =====
-- The counts are those of the connections that wait, whatever the order of arrivals and departures.
use greyproxy.Prelude.{
  ℕ, ◌+◌, ◌-◌, ◌≡◌, refl, ◌∙◌, false, not, ◌&&◌, List, [], ◌∷◌, ◌++◌, ◌==◌, list_eq, arith,
  if◌then◌else◌, ℤ, keep, Bool-cases, inl, inr, ==_refl, list_eqb_iff,
}
use greyproxy.Go.Strings.{Str}
use greyproxy.Waiters.{
  Counts, count_of, delete, set_count, waiter_key, Waiter, key_of, add, decrement, done, get,
}

count-delete_same : (key : Str) (counts : Counts) → count_of key (delete key counts) ≡ 0
unfolding count_of delete keep
count-delete_same key [] = refl
count-delete_same key ((k, n) ∷ counts) = ground (arith, count-delete_same key counts)

count-delete_other :
    (key other : Str) (counts : Counts)
    → (key == other) ≡ false
    → count_of other (delete key counts) ≡ count_of other counts
unfolding count_of delete keep
count-delete_other key other [] n = refl
count-delete_other key other ((k, m) ∷ counts) n = elim (Bool-cases (k == key)) [
  | inl q ↦
      let other_key : (k == other) ≡ false = rw ((list_eqb_iff k key).0 q) n in
      ground (arith, count-delete_other key other counts n)
  | inr q ↦ ground (arith, count-delete_other key other counts n)
]

count-decrement_same :
    (key : Str) (counts : Counts) → count_of key (decrement key counts) ≡ count_of key counts - 1
unfolding decrement set_count count_of
count-decrement_same key counts = ground (arith, count-delete_same key counts, list_eqb_iff key key)

count-decrement_other :
    (key other : Str) (counts : Counts)
    → (key == other) ≡ false
    → count_of other (decrement key counts) ≡ count_of other counts
unfolding decrement set_count count_of
count-decrement_other key other counts n = ground (arith, count-delete_other key other counts n)

-- What a key counts after a decrement and after an increment of another or the same key.
pub count-decrement :
    (key other : Str) (counts : Counts)
    → count_of other (decrement key counts)
      ≡ (if key == other then count_of other counts - 1 else count_of other counts)
count-decrement key other counts = elim (Bool-cases (key == other)) [
  | inl q ↦ rw (← (list_eqb_iff key other).0 q) (rw (==_refl key) (count-decrement_same key counts))
  | inr q ↦ rw q (count-decrement_other key other counts q)
]

pub count-increment :
    (key other : Str) (counts : Counts)
    → count_of other (set_count key (count_of key counts + 1) counts)
      ≡ (if key == other then count_of other counts + 1 else count_of other counts)
unfolding set_count count_of
count-increment key other counts = elim (Bool-cases (key == other)) [
  | inl q ↦ rw (q, (list_eqb_iff key other).0 q)
  | inr q ↦ rw q (count-delete_other key other counts q)
]

-- The tracker and the functions that its calls of Add returned, in the order of the calls.
pub record Tracking : Type 0 where
  pub counts : Counts
  pub waiters : List Waiter

-- The connection waits under the key.
abbrev waits : Str → Waiter → ℕ
waits key w = if not w.released && key_of w == key then 1 else 0

unfoldable pub waiting : Str → List Waiter → ℕ
waiting key [] = 0
waiting key (w ∷ ws) = waits key w + waiting key ws

-- A connection arrives, or a returned function is called, be it again.
pub data Step : Tracking → Tracking → Type 0 where
  arrive :
      (container host : Str) (port : ℤ) (t : Tracking)
      → Step t (record {
        counts = (add container host port t.counts).1;
        waiters = t.waiters ++ (add container host port t.counts).0 ∷ [];
      })
  leave :
      (before : List Waiter) (w : Waiter) (after : List Waiter) (counts : Counts)
      → Step
          (record { counts = counts; waiters = before ++ w ∷ after })
          (record { counts = (done w counts).1; waiters = before ++ (done w counts).0 ∷ after })

pub data Reachable : Tracking → Type 0 where
  start : Reachable (record { counts = []; waiters = [] })
  next : {s t : Tracking} → Reachable s → Step s t → Reachable t

waiting-append :
    (key : Str) (xs ys : List Waiter) → waiting key (xs ++ ys) ≡ waiting key xs + waiting key ys
unfolding waiting
waiting-append key [] ys = omega arith
waiting-append key (w ∷ xs) ys = omega (arith, waiting-append key xs ys)

-- The counts agree with the waiters.
abbrev Agrees : Tracking → Type 0
Agrees t = (key : Str) → count_of key t.counts ≡ waiting key t.waiters

Step-Agrees : {s t : Tracking} → Step s t → Agrees s → Agrees t
unfolding add done waiting
Step-Agrees (arrive container host port t) h key =
    count-increment (waiter_key container host port) key t.counts
    ∙ rw (waiting-append key t.waiters) (ground (arith, h key))
Step-Agrees (leave before w after counts) h key = elim (Bool-cases w.released) [
  | inl q ↦
      rw (q, waiting-append key before)
        (ground (arith, q, h key, waiting-append key before (w ∷ after)))
  | inr q ↦
      rw (q, waiting-append key before)
        (ground (
          arith,
          q,
          h key,
          count-decrement (key_of w) key counts,
          waiting-append key before (w ∷ after),
        ))
]

Reachable-Agrees : {t : Tracking} → Reachable t → Agrees t
unfolding count_of waiting
Reachable-Agrees start key = refl
Reachable-Agrees (next r s) key = Step-Agrees s (Reachable-Agrees r) key

-- At every time, whatever the order in which connections arrived and left, and however often the
-- functions that Add returned were called, Get returns the number of connections that wait under
-- the key.
pub get-waiting :
    (t : Tracking) (container host : Str) (port : ℤ)
    → Reachable t
    → get container host port t.counts ≡ waiting (waiter_key container host port) t.waiters
unfolding get
get-waiting t container host port r = Reachable-Agrees r (waiter_key container host port)
