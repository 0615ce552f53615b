-- ===== src/Core/Scheduler.antt =====
-- core/MachineScheduler.cpp: events at cycles, and their dispatch. `E` is the callbacks, `W` the
-- state of the machine that they act on; a callback may also call the scheduler. The priority
-- queue of the C++ library is a list, its top first.
pub mod Order
pub mod Dispatch
use cute_mac.Base.{
  ℕ, zero, suc, ◌+◌, ◌%◌, ◌^◌, Bool, List, [], ◌∷◌, Option, none, some, ltb, leb, ◌==◌,
  if◌then◌else◌,
}

pub record Event (E : Type 0) : Type 0 where
  pub cycle : ℕ
  pub sequence : ℕ
  pub callback : E

pub record MachineScheduler (E : Type 0) : Type 0 where
  pub events : List (Event E)
  pub now : ℕ
  pub next_sequence : ℕ

module _ {E : Type 0} where
  -- MachineScheduler::Later
  abbrev pub is_later : Event E → Event E → Bool
  is_later left right =
      if left.cycle == right.cycle
      then ltb right.sequence left.sequence
      else ltb right.cycle left.cycle

  -- `push` of the queue; `top` and `pop` are the head and the tail.
  unfoldable pub push_event : Event E → List (Event E) → List (Event E)
  push_event event [] = event ∷ []
  push_event event (x ∷ xs) =
      let rest = push_event event xs in if is_later event x then x ∷ rest else event ∷ x ∷ xs

  abbrev pub reset_scheduler : MachineScheduler E → MachineScheduler E
  reset_scheduler s = record { events = []; now = 0; next_sequence = 0 }

  unfoldable pub schedule : ℕ → E → MachineScheduler E → MachineScheduler E
  unfolding push_event
  schedule cycle callback s =
      let event : Event E = record {
        cycle = cycle;
        sequence = s.next_sequence;
        callback = callback;
      } in
      record s {
        events = push_event event s.events;
        next_sequence = (s.next_sequence + 1) % 2 ^ 64;
      }

  -- The top of the queue, where it is due, and the queue without it.
  unfoldable pub next_due : ℕ → List (Event E) → Option (Event E × List (Event E))
  next_due now [] = none
  next_due now (x ∷ xs) = if leb x.cycle now then some (x, xs) else none

  -- `m_now += cycles`.
  abbrev pub advanced : ℕ → MachineScheduler E → MachineScheduler E
  advanced cycles s = record s { now = (s.now + cycles) % 2 ^ 64 }

  module _ {W : Type 0} (run : E → MachineScheduler E × W → MachineScheduler E × W) where
    -- None where the fuel does not reach the end of the loop.
    unfoldable pub dispatch_due : ℕ → MachineScheduler E × W → Option (MachineScheduler E × W)
    unfolding next_due
    dispatch_due zero s = none
    dispatch_due (suc fuel) (s, w) = elim (next_due s.now s.events) [
      | none ↦ some (s, w)
      | some (event, rest) ↦ dispatch_due fuel (run event.callback (record s { events = rest }, w))
    ]

    unfoldable pub advance : ℕ → ℕ → MachineScheduler E × W → Option (MachineScheduler E × W)
    unfolding dispatch_due
    advance fuel cycles (s, w) = dispatch_due fuel (advanced cycles s, w)
