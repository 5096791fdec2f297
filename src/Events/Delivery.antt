-- ===== src/Events/Delivery.antt =====
-- What the subscribers of the bus receive.
use greyproxy.Prelude.{
  ℕ, zero, suc, ◌+◌, ◌-◌, ◌≤◌, ◌<◌, ◌≡◌, refl, sym, ap, ◌∙◌, true, false, List, [], ◌∷◌, ◌++◌, map,
  arith, ltb, nat_eq, length, length-append, take, Bool-cases, inl, inr,
}
use greyproxy.Events.{Event, Subscriber, EventBus, offer, publish, publish_all}

append-nil : (xs : List Event) → xs ++ [] ≡ xs
append-nil [] = refl
append-nil (x ∷ xs) = ap (λ r. x ∷ r) (append-nil xs)

append_assoc : (xs ys zs : List Event) → (xs ++ ys) ++ zs ≡ xs ++ (ys ++ zs)
append_assoc [] ys zs = refl
append_assoc (x ∷ xs) ys zs = ap (λ r. x ∷ r) (append_assoc xs ys zs)

take-nil : (n : ℕ) → take {A = Event} n [] ≡ []
take-nil zero = refl
take-nil (suc n) = refl

with_queue : Subscriber → List Event → Subscriber
with_queue s q = record s { queue = q }

ltb-lt : (m n : ℕ) → ltb m n ≡ true → m < n
ltb-lt m n h = ground arith

ltb-ge : (m n : ℕ) → ltb m n ≡ false → n ≤ m
ltb-ge m n h = ground arith

-- What a subscriber holds after a run of events: as many of the first ones as there was room for.
abbrev pub filled : List Event → Subscriber → Subscriber
filled es s = record s { queue = s.queue ++ take (s.size - length s.queue) es }

take-room :
    (size n : ℕ) (e : Event) (es : List Event)
    → n < size
    → e ∷ take (size - (n + 1)) es ≡ take (size - n) (e ∷ es)
take-room size n e es h = let m : size - n ≡ suc (size - (n + 1)) = omega (arith, h) in rw m

filled-offer :
    (e : Event) (es : List Event) (s : Subscriber) → filled es (offer e s) ≡ filled (e ∷ es) s
unfolding offer with_queue
filled-offer e es s = elim (Bool-cases (ltb (length s.queue) s.size)) [
  | inl q ↦
      rw (q, length-append s.queue (e ∷ []))
        (ap (with_queue s) (
          append_assoc s.queue (e ∷ []) _
          ∙ ap (λ r. s.queue ++ r) (take-room s.size (length s.queue) e es (ltb-lt _ _ q))))
  | inr q ↦
      let full : s.size - length s.queue ≡ 0 = omega (arith, ltb-ge _ _ q) in rw (q, full) refl
]

map-offer :
    (e : Event) (es : List Event) (ss : List Subscriber)
    → map (filled es) (map (offer e) ss) ≡ map (filled (e ∷ es)) ss
map-offer e es [] = refl
map-offer e es (s ∷ ss) = rw (filled-offer e es s, map-offer e es ss)

filled-nil : (ss : List Subscriber) → map (filled []) ss ≡ ss
filled-nil [] = refl
filled-nil (s ∷ ss) = rw (take-nil (s.size - length s.queue), append-nil s.queue, filled-nil ss)

-- Events that are published with nobody receiving in between reach every subscriber in their order,
-- without gap, up to the room that its buffer has; the rest is dropped.
pub publish_all-filled :
    (es : List Event) (bus : EventBus)
    → (publish_all es bus).subscribers ≡ map (filled es) bus.subscribers
unfolding publish_all publish
publish_all-filled [] bus = sym (filled-nil bus.subscribers)
publish_all-filled (e ∷ es) bus =
    publish_all-filled es (publish e bus) ∙ map-offer e es bus.subscribers
