-- ===== src/Examples/Scheduler.antt =====
-- A scheduler whose callbacks schedule themselves again.
use cute_mac.Base.{ℕ, suc, ◌+◌, List, [], ◌∷◌, some, length, ◌≡◌, refl, arith}
use cute_mac.Core.Scheduler.{Event, MachineScheduler, schedule, advance, advanced}
use cute_mac.Core.Scheduler.Order.{due, IsQueue, empty, schedule-IsQueue, due-push_event}
use cute_mac.Core.Scheduler.Dispatch.{IsTimelyRun, IsDispatched, advance-IsDispatched}

-- The callback `e` counts itself, and comes again after `e + 1` cycles.
abbrev again : ℕ → MachineScheduler ℕ × ℕ → MachineScheduler ℕ × ℕ
again e (s, count) = (schedule (s.now + suc e) e s, count + e)

again-IsTimelyRun : IsTimelyRun again
unfolding schedule
again-IsTimelyRun e s count queue = record {
  same_now = refl;
  same_due = due-push_event s.now _ s.events (omega arith);
  ordered = schedule-IsQueue (s.now + suc e) e s queue;
}

abbrev idle : MachineScheduler ℕ
idle = record { events = []; now = 0; next_sequence = 0 }

-- Three events, two of them at one cycle.
abbrev waiting : MachineScheduler ℕ
waiting = schedule 9 7 (schedule 5 2 (schedule 5 1 idle))

waiting-IsQueue : IsQueue waiting.events
waiting-IsQueue =
    schedule-IsQueue 9 7 (schedule 5 2 (schedule 5 1 idle))
      (schedule-IsQueue 5 2 (schedule 5 1 idle) (schedule-IsQueue 5 1 idle empty))

advance-IsDispatched_example :
    (r : MachineScheduler ℕ × ℕ) × (advance again
        (suc (length (due (advanced 6 waiting).now waiting.events)))
        6
        (waiting, 0)
      ≡ some r)
    × IsDispatched again (advanced 6 waiting) 0 r
advance-IsDispatched_example =
    advance-IsDispatched again 6 waiting 0 again-IsTimelyRun waiting-IsQueue

-- Two events are due, and the one that was scheduled first runs first.
abbrev events_at_5 : List (Event ℕ)
events_at_5 =
    record { cycle = 5; sequence = 0; callback = 1 }
    ∷ record { cycle = 5; sequence = 1; callback = 2 }
    ∷ []

two_due : due 6 waiting.events ≡ events_at_5
unfolding due schedule
two_due = refl
