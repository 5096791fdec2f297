-- ===== src/AllowAll.antt =====
-- internal/greyproxy/allowall.go: silent mode. The timers of the runtime stand beside the manager: a
-- timer is armed until its time comes, then its callback waits for the lock until it runs. Stop
-- disarms a timer; on a callback that already waits it has no effect.
pub mod Timers
use greyproxy.Prelude.{
  ℕ, zero, suc, ◌+◌, ◌-◌, String, Bool, true, false, not, Option, none, some, List, [], ◌∷◌, ◌==◌,
  nat_eq, if◌then◌else◌, keep,
}
use greyproxy.Events.{Event, AllowAllStatus, allow_all_changed}

pub record AllowAllManager : Type 0 where
  pub active : Bool
  pub mode : String
  pub expiry : Option ℕ
  pub timer : Option ℕ

pub record Runtime : Type 0 where
  pub manager : AllowAllManager
  pub armed : List (ℕ × ℕ)  -- the timer, and when it fires
  pub waiting : List ℕ  -- the callbacks that wait for the lock
  pub next_timer : ℕ

abbrev pub new_allow_all_manager : Runtime
new_allow_all_manager = record {
  manager = record { active = false; mode = ""; expiry = none; timer = none };
  armed = [];
  waiting = [];
  next_timer = 0;
}

abbrev pub is_timer : ℕ → ℕ × ℕ → Bool
is_timer t (u, deadline) = u == t

-- `m.timer.Stop()` behind the test for nil.
abbrev pub stop : Option ℕ → List (ℕ × ℕ) → List (ℕ × ℕ)
stop none armed = armed
stop (some t) armed = keep (λ entry. not (is_timer t entry)) armed

-- The status of the event that announces the end.
abbrev pub inactive : AllowAllStatus
inactive = record { active = false; mode = ""; expires_at = none; remaining_seconds = none }

-- Enable, for a duration in seconds; 0 is until the restart.
unfoldable pub enable : ℕ → ℕ → String → Runtime → Runtime × List Event
unfolding keep
enable now zero mode r = (
  record r {
    manager = record { active = true; mode = mode; expiry = none; timer = none };
    armed = stop r.manager.timer r.armed;
  },
  allow_all_changed
        (record { active = true; mode = mode; expires_at = none; remaining_seconds = none })
      ∷ [],
)
enable now (suc d) mode r =
    let deadline = now + suc d in
    (
      record r {
        manager = record {
          active = true;
          mode = mode;
          expiry = some deadline;
          timer = some r.next_timer;
        };
        armed = (r.next_timer, deadline) ∷ stop r.manager.timer r.armed;
        next_timer = suc r.next_timer;
      },
      allow_all_changed (record {
        active = true;
        mode = mode;
        expires_at = some deadline;
        remaining_seconds = some (suc d);
      })
          ∷ [],
    )

-- Disable
unfoldable pub disable : Runtime → Runtime × List Event
unfolding keep
disable r = if not r.manager.active then (r, []) else (
  record r {
    manager = record r.manager { active = false; timer = none };
    armed = stop r.manager.timer r.armed;
  },
  allow_all_changed inactive ∷ [],
)

-- The time of a timer comes: its callback waits for the lock.
unfoldable pub fire : ℕ → Runtime → Runtime
unfolding keep
fire t r = record r {
  armed = keep (λ entry. not (is_timer t entry)) r.armed;
  waiting = t ∷ r.waiting;
}

-- The callback that Enable passes to AfterFunc.
unfoldable pub callback : ℕ → Runtime → Runtime × List Event
unfolding keep
callback t r = (
  record r {
    manager = record r.manager { active = false; timer = none };
    waiting = keep (λ u. not (u == t)) r.waiting;
  },
  allow_all_changed inactive ∷ [],
)

-- IsActive, Mode
abbrev pub is_active : Runtime → Bool
is_active r = r.manager.active

abbrev pub mode_of : Runtime → String
mode_of r = r.manager.mode

-- Status
unfoldable pub status : ℕ → Runtime → AllowAllStatus
status now r = if not r.manager.active then inactive else record {
  active = true;
  mode = r.manager.mode;
  expires_at = r.manager.expiry;
  remaining_seconds = elim r.manager.expiry [ none ↦ none | some d ↦ some (d - now) ];
}
