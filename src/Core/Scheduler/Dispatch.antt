-- ===== src/Core/Scheduler/Dispatch.antt =====
-- About the loop that dispatches the events that are due.
use cute_mac.Base.{
  ℕ, zero, suc, ◌<◌, List, [], ◌∷◌, none, some, leb, Bool-cases, inl, inr, ◌≡◌, refl, arith,
  if_holds, if_fails, option_some, option_none, ◌∙◌, sym, ap, length,
}
use cute_mac.Core.Scheduler.{Event, MachineScheduler, next_due, dispatch_due, advance, advanced}
use cute_mac.Core.Scheduler.Order.{due, IsQueue, first}

abbrev rest_of : {E : Type 0} → List (Event E) → List (Event E)
rest_of [] = []
rest_of (x ∷ xs) = xs

module _ {E : Type 0} {W : Type 0} where
  -- A callback lets no time pass, keeps the queue in order, and adds no event that is due.
  pub record IsTimely (before : MachineScheduler E) (after : MachineScheduler E × W) : Type 0 where
    pub same_now : after.0.now ≡ before.now
    pub same_due : due before.now after.0.events ≡ due before.now before.events
    pub ordered : IsQueue after.0.events

  module _ (run : E → MachineScheduler E × W → MachineScheduler E × W) where
    -- The callbacks of the events, one after another, each with the top taken off the queue.
    unfoldable pub run_each : List (Event E) → MachineScheduler E × W → MachineScheduler E × W
    run_each [] s = s
    run_each (event ∷ later) (s, w) =
        run_each later (run event.callback (record s { events = rest_of s.events }, w))

    abbrev pub IsTimelyRun : Type 0
    IsTimelyRun =
        (e : E) (s : MachineScheduler E) (w : W) → IsQueue s.events → IsTimely s (run e (s, w))

    -- `r` is what the callbacks of the events that were due leave, in the order of the queue, and
    -- no event is due there.
    pub record IsDispatched (s : MachineScheduler E) (w : W) (r : MachineScheduler E × W)
        : Type 0 where
      pub ran : r ≡ run_each (due s.now s.events) (s, w)
      pub same_now : r.0.now ≡ s.now
      pub nothing_due : due r.0.now r.0.events ≡ []
      pub ordered : IsQueue r.0.events

    dispatches :
        (fuel : ℕ) (es : List (Event E)) (now n : ℕ) (w : W)
        → IsTimelyRun
        → IsQueue es
        → length (due now es) < fuel
        → let s : MachineScheduler E = record { events = es; now = now; next_sequence = n } in
          (r : MachineScheduler E × W) × (dispatch_due run fuel (s, w) ≡ some r)
          × IsDispatched s w r
    unfolding dispatch_due next_due run_each due
    dispatches zero es now n w timely queue less = absurd (omega (arith, less))
    dispatches (suc fuel) [] now n w timely queue less =
        (_, refl, record { ran = refl; same_now = refl; nothing_due = refl; ordered = queue })
    dispatches (suc fuel) (x ∷ xs) now n w timely (first h queue) less =
        let s : MachineScheduler E × W =
          (record { events = x ∷ xs; now = now; next_sequence = n }, w) in
        elim (Bool-cases (leb x.cycle now)) [
          | inl t ↦
              let s' = run x.callback (record { events = xs; now = now; next_sequence = n }, w) in
              let k =
                timely x.callback (record { events = xs; now = now; next_sequence = n }) w queue in
              let same : due s'.0.now s'.0.events ≡ due now xs =
                ap (λ i. due i s'.0.events) k.same_now ∙ k.same_due in
              let less' : suc (length (due now xs)) < suc fuel = rw t at less in
              let fewer : length (due s'.0.now s'.0.events) < fuel =
                rw same (omega (arith, less')) in
              let (r, runs, h) =
                dispatches fuel s'.0.events s'.0.now s'.0.next_sequence s'.1 timely k.ordered
                  fewer in
              (
                r,
                option_some _ _ (if_holds (some (x, xs)) none t) ∙ runs,
                record {
                  ran =
                      h.ran
                      ∙ ap (λ ds. run_each ds s') same
                      ∙ ap (λ ds. run_each ds s) (sym (if_holds (x ∷ due now xs) [] t));
                  same_now = h.same_now ∙ k.same_now;
                  nothing_due = h.nothing_due;
                  ordered = h.ordered;
                },
              )
          | inr t ↦ (
            s,
            option_none _ _ (if_fails (some (x, xs)) none t),
            record {
              ran = ap (λ ds. run_each ds s) (sym (if_fails (x ∷ due now xs) [] t));
              same_now = refl;
              nothing_due = if_fails (x ∷ due now xs) [] t;
              ordered = first h queue;
            },
          )
        ]

    -- Time goes on by any number of cycles, from a queue in order, with callbacks that keep it in
    -- order, let no time pass and add no event that is due: the loop ends after a round for each
    -- event that is due then and one more, the callbacks of exactly these events have run, one
    -- after another in the order of the queue, and no event that is left is due.
    pub advance-IsDispatched :
        (cycles : ℕ) (s : MachineScheduler E) (w : W)
        → IsTimelyRun
        → IsQueue s.events
        → (r : MachineScheduler E × W) × (advance run
              (suc (length (due (advanced cycles s).now s.events)))
              cycles
              (s, w)
            ≡ some r)
          × IsDispatched (advanced cycles s) w r
    unfolding advance
    advance-IsDispatched cycles s w timely queue =
        dispatches (suc (length (due (advanced cycles s).now s.events))) s.events
          (advanced cycles s).now s.next_sequence w timely queue (omega arith)
