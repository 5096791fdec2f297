-- ===== src/AllowAll/Timers.antt =====
-- Silent mode and its timers, over every order of calls, expiries and callbacks.
use greyproxy.Prelude.{
  ℕ, zero, suc, String, ◌≡◌, refl, sym, subst, ap, true, false, not, Option, none, some, List, ◌==◌,
  nat_eq, arith, keep, keep-In, In, In-keep, Bool-cases, inl, inr,
}
use greyproxy.AllowAll.{
  Runtime, AllowAllManager, new_allow_all_manager, stop, enable, disable, fire, callback, is_timer,
}

-- One call, expiry or callback.
pub data Step : Runtime → Runtime → Type 0 where
  enabled : (now duration : ℕ) (mode : String) (r : Runtime) → Step r (enable now duration mode r).0
  disabled : (r : Runtime) → Step r (disable r).0
  fired : (t deadline : ℕ) (r : Runtime) → In (t, deadline) r.armed → Step r (fire t r)
  called : (t : ℕ) (r : Runtime) → In t r.waiting → Step r (callback t r).0

pub data Reachable : Runtime → Type 0 where
  start : Reachable new_allow_all_manager
  next : {r s : Runtime} → Reachable r → Step r s → Reachable s

-- The end of silent mode is on its way: a timer is armed for the time, or its callback waits.
pub data Ending (r : Runtime) (deadline : ℕ) : Type 0 where
  by_timer : (t : ℕ) → In (t, deadline) r.armed → Ending r deadline
  by_callback : (t : ℕ) → In t r.waiting → Ending r deadline

abbrev Ends : Runtime → Type 0
Ends r = (d : ℕ) → r.manager.active ≡ true → r.manager.expiry ≡ some d → Ending r d

fire-Ends : (t : ℕ) (r : Runtime) → Ends r → Ends (fire t r)
unfolding fire
fire-Ends t r h d a e = go (h d a e)
  where
    go : Ending r d → Ending (fire t r) d
    go (by_timer u i) = elim (Bool-cases (u == t)) [
      | inl q ↦ by_callback t (inl refl)
      | inr q ↦ by_timer u (In-keep _ (u, d) r.armed i (ground arith))
    ]
    go (by_callback u i) = by_callback u (inr i)

disable-off : (r : Runtime) → r.manager.active ≡ true → (disable r).0.manager.active ≡ false
unfolding disable
disable-off r q = rw q

disable-idle : (r : Runtime) → r.manager.active ≡ false → (disable r).0 ≡ r
unfolding disable
disable-idle r q = rw q

disable-Ends : (r : Runtime) → Ends r → Ends (disable r).0
disable-Ends r h = elim (Bool-cases r.manager.active) [
  | inl q ↦ λ d a e. cc (disable-off r q)
  | inr q ↦ subst Ends (sym (disable-idle r q)) h
]

Step-Ends : {r s : Runtime} → Step r s → Ends r → Ends s
unfolding enable callback
Step-Ends (enabled now zero mode r) h d a e = cc
Step-Ends (enabled now (suc n) mode r) h d a e =
    by_timer r.next_timer (inl (ap (λ x. (r.next_timer, x)) (cc)))
Step-Ends (disabled r) h d a e = disable-Ends r h d a e
Step-Ends (fired t deadline r i) h d a e = fire-Ends t r h d a e
Step-Ends (called t r i) h d a e = cc

Reachable-Ends : {r : Runtime} → Reachable r → Ends r
Reachable-Ends start d a e = cc
Reachable-Ends (next r s) d a e = Step-Ends s (Reachable-Ends r) d a e

-- Whatever the order of calls, expiries and callbacks: while silent mode is on and has an expiry, a
-- timer is armed for that time or a callback that ends the mode waits for the lock.
pub silent_mode_ends :
    (r : Runtime) (deadline : ℕ)
    → Reachable r
    → r.manager.active ≡ true
    → r.manager.expiry ≡ some deadline
    → Ending r deadline
silent_mode_ends r deadline h = Reachable-Ends h deadline

-- Histories in which each callback has the lock as soon as its timer fires.
pub data PromptStep : Runtime → Runtime → Type 0 where
  enabled_promptly :
      (now duration : ℕ) (mode : String) (r : Runtime) → PromptStep r (enable now duration mode r).0
  disabled_promptly : (r : Runtime) → PromptStep r (disable r).0
  expired :
      (t deadline : ℕ) (r : Runtime)
      → In (t, deadline) r.armed
      → PromptStep r (callback t (fire t r)).0

pub data Prompt : Runtime → Type 0 where
  prompt_start : Prompt new_allow_all_manager
  prompt_next : {r s : Runtime} → Prompt r → PromptStep r s → Prompt s

-- An armed timer is the manager's own, for the expiry of a mode that is on.
pub record IsOwn (m : AllowAllManager) (t deadline : ℕ) : Type 0 where
  pub on : m.active ≡ true
  pub own : m.timer ≡ some t
  pub due : m.expiry ≡ some deadline

abbrev Owns : Runtime → Type 0
Owns r = (t d : ℕ) → In (t, d) r.armed → IsOwn r.manager t d

none_left :
    (t u d : ℕ) (armed : List (ℕ × ℕ))
    → (In (u, d) armed → u ≡ t)
    → ¬ In (u, d) (keep (λ entry. not (is_timer t entry)) armed)
none_left t u d armed h i =
    let (j, k) = keep-In _ (u, d) armed i in let e : u ≡ t = h j in ground arith

stop-clears :
    (timer : Option ℕ) (u d : ℕ) (armed : List (ℕ × ℕ))
    → (In (u, d) armed → timer ≡ some u)
    → ¬ In (u, d) (stop timer armed)
stop-clears none u d armed h i = cc (h i)
stop-clears (some t) u d armed h i = none_left t u d armed (λ j. cc (h j)) i

stopped-Owns :
    (r : Runtime) (m : AllowAllManager)
    → Owns r
    → (t d : ℕ) → In (t, d) (stop r.manager.timer r.armed)
    → IsOwn m t d
stopped-Owns r m h t d i = absurd (stop-clears r.manager.timer t d r.armed (λ j. (h t d j).own) i)

disable-armed :
    (r : Runtime) → r.manager.active ≡ true → (disable r).0.armed ≡ stop r.manager.timer r.armed
unfolding disable
disable-armed r q = rw q

disable-Owns : (r : Runtime) → Owns r → Owns (disable r).0
disable-Owns r h = elim (Bool-cases r.manager.active) [
  | inl q ↦ λ t d i. stopped-Owns r _ h t d (rw (disable-armed r q) at i)
  | inr q ↦ subst Owns (sym (disable-idle r q)) h
]

enable-Owns :
    (now n : ℕ) (mode : String) (r : Runtime) → Owns r → Owns (enable now (suc n) mode r).0
unfolding enable
enable-Owns now n mode r h t d (inl e) = record {
  on = refl;
  own = ap (λ (x : ℕ × ℕ). some x.0) (sym e);
  due = ap (λ (x : ℕ × ℕ). some x.1) (sym e);
}
enable-Owns now n mode r h t d (inr i) = stopped-Owns r _ h t d i

PromptStep-Owns : {r s : Runtime} → PromptStep r s → Owns r → Owns s
unfolding enable callback fire
PromptStep-Owns (enabled_promptly now zero mode r) h = stopped-Owns r _ h
PromptStep-Owns (enabled_promptly now (suc n) mode r) h = enable-Owns now n mode r h
PromptStep-Owns (disabled_promptly r) h = disable-Owns r h
PromptStep-Owns (expired t deadline r i) h =
    λ u d j. absurd (none_left t u d r.armed (λ k. cc ((h u d k).own, (h t deadline i).own)) j)

Prompt-Owns : {r : Runtime} → Prompt r → Owns r
Prompt-Owns prompt_start t d i = absurd i
Prompt-Owns (prompt_next p s) t d i = PromptStep-Owns s (Prompt-Owns p) t d i

-- As long as each callback has the lock as soon as its timer fires, no timer but the manager's own is
-- armed: it is due at the expiry of the mode that is on, so nothing ends a mode before its expiry
-- but the calls themselves.
pub armed-IsOwn :
    (r : Runtime) (t deadline : ℕ)
    → Prompt r
    → In (t, deadline) r.armed
    → IsOwn r.manager t deadline
armed-IsOwn r t deadline p = Prompt-Owns p t deadline
