-- ===== src/Events.antt =====
-- internal/greyproxy/events.go: the events and the bus that broadcasts them. A channel is a bounded
-- queue; `select` with a default drops an event for which the channel has no room.
pub mod Delivery
use greyproxy.Prelude.{
  ℕ, suc, String, Bool, not, Option, none, some, List, [], ◌∷◌, ◌++◌, map, ltb, ◌==◌, nat_eq,
  if◌then◌else◌, ℤ, length, keep,
}
use greyproxy.Go.Strings.{Str}
use greyproxy.Store.{PendingRequest}

-- Published when the number of waiters of a pending request changes.
pub record WaiterChangedData : Type 0 where
  pub container_name : Str
  pub host : Str
  pub port : ℤ
  pub previous_count : ℕ
  pub current_count : ℕ

-- AllowAllStatus of allowall.go. Times are seconds; no expiry means until the restart.
pub record AllowAllStatus : Type 0 where
  pub active : Bool
  pub mode : String
  pub expires_at : Option ℕ
  pub remaining_seconds : Option ℕ

-- The events by their types, with their data; those that only the dashboard reads are `other`.
pub data Event : Type 0 where
  pending_created pending_updated : PendingRequest → Event
  pending_allowed pending_dismissed : Event
  waiters_changed : WaiterChangedData → Event
  allow_all_changed : AllowAllStatus → Event
  other : String → Event

pub record Subscriber : Type 0 where
  pub channel : ℕ
  pub size : ℕ
  pub queue : List Event

pub record EventBus : Type 0 where
  pub subscribers : List Subscriber
  pub next_channel : ℕ

abbrev pub new_event_bus : EventBus
new_event_bus = record { subscribers = []; next_channel = 0 }

-- Subscribe: a fresh channel, with a buffer of 64 if the size is below 1.
unfoldable pub subscribe : ℕ → EventBus → EventBus × ℕ
subscribe size bus = (
  record {
    subscribers =
        bus.subscribers
        ++ record { channel = bus.next_channel; size = if ltb size 1 then 64 else size; queue = [] }
          ∷ [];
    next_channel = suc bus.next_channel;
  },
  bus.next_channel,
)

-- Unsubscribe
unfoldable pub unsubscribe : ℕ → EventBus → EventBus
unfolding keep
unsubscribe ch bus = record bus { subscribers = keep (λ s. not (s.channel == ch)) bus.subscribers }

unfoldable pub offer : Event → Subscriber → Subscriber
offer e s = if ltb (length s.queue) s.size then record s { queue = s.queue ++ e ∷ [] } else s

-- Publish
unfoldable pub publish : Event → EventBus → EventBus
unfolding offer
publish e bus = record bus { subscribers = map (offer e) bus.subscribers }

unfoldable pub publish_all : List Event → EventBus → EventBus
publish_all [] bus = bus
publish_all (e ∷ es) bus = publish_all es (publish e bus)
