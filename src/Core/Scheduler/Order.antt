-- ===== src/Core/Scheduler/Order.antt =====
-- About the order of the scheduler's queue.
use cute_mac.Base.{
  ℕ, ◌≤◌, ◌<◌, true, false, List, [], ◌∷◌, leb, if◌then◌else◌, ◌≡◌, refl, arith, if_both, if_fails,
  ◌∙◌, ap,
}
use cute_mac.Core.Scheduler.{Event, MachineScheduler, is_later, push_event, schedule}

module _ {E : Type 0} where
  -- No event of the list comes before `x`.
  pub data IsFirst (x : Event E) : List (Event E) → Type 0 where
    none_behind : IsFirst x []
    behind : {y : Event E} {ys : List (Event E)} → is_later x y ≡ false → IsFirst x (y ∷ ys)

  pub data IsQueue : List (Event E) → Type 0 where
    empty : IsQueue []
    first : {x : Event E} {xs : List (Event E)} → IsFirst x xs → IsQueue xs → IsQueue (x ∷ xs)

  -- The events that are due, in the order of the queue.
  unfoldable pub due : ℕ → List (Event E) → List (Event E)
  due now [] = []
  due now (x ∷ xs) = let rest = due now xs in if leb x.cycle now then x ∷ rest else []

  not_earlier : (x y : Event E) → is_later x y ≡ false → x.cycle ≤ y.cycle
  not_earlier x y h = ground arith

  earlier : (x y : Event E) → is_later x y ≡ true → is_later y x ≡ false
  earlier x y h = ground arith

  push_event-IsFirst :
      (x event : Event E) (xs : List (Event E))
      → IsFirst x xs
      → is_later event x ≡ true
      → IsFirst x (push_event event xs)
  unfolding push_event
  push_event-IsFirst x event [] none_behind after = behind (earlier event x after)
  push_event-IsFirst x event (y ∷ ys) (behind h) after =
      if_both (IsFirst x) (is_later event y) _ _ (λ t. behind h)
        (λ t. behind (earlier event x after))

  -- A push keeps the queue in order.
  pub push_event-IsQueue :
      (event : Event E) (xs : List (Event E)) → IsQueue xs → IsQueue (push_event event xs)
  unfolding push_event
  push_event-IsQueue event [] empty = first none_behind empty
  push_event-IsQueue event (x ∷ xs) (first h queue) =
      if_both IsQueue (is_later event x) _ _
        (λ t. first (push_event-IsFirst x event xs h t) (push_event-IsQueue event xs queue))
        (λ t. first (behind t) (first h queue))

  -- A push of an event that is not due leaves the events that are.
  pub due-push_event :
      (now : ℕ) (event : Event E) (xs : List (Event E))
      → now < event.cycle
      → due now (push_event event xs) ≡ due now xs
  unfolding due push_event
  due-push_event now event [] ahead =
      let beyond : leb event.cycle now ≡ false = ground arith in if_fails _ _ beyond
  due-push_event now event (x ∷ xs) ahead =
      if_both (λ ys. due now ys ≡ due now (x ∷ xs)) (is_later event x) _ _
        (λ t.
          ap (λ rest. if leb x.cycle now then x ∷ rest else []) (due-push_event now event xs ahead))
        (λ t.
          let beyond : leb event.cycle now ≡ false = ground arith in
          let behind_now : leb x.cycle now ≡ false = ground (arith, not_earlier event x t) in
          if_fails _ _ beyond ∙ rw behind_now refl)

  pub schedule-IsQueue :
      (cycle : ℕ) (callback : E) (s : MachineScheduler E)
      → IsQueue s.events
      → IsQueue (schedule cycle callback s).events
  unfolding schedule
  schedule-IsQueue cycle callback s queue =
      push_event-IsQueue (record { cycle = cycle; sequence = s.next_sequence; callback = callback })
        s.events queue
