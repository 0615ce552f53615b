-- ===== src/Devices/Via6522/Rewind.antt =====
-- About the loops of Via6522::tick that add a period until a counter is positive again.
use cute_mac.Base.{ℕ, zero, suc, ◌+◌, ◌-◌, ◌*◌, ◌≤◌, ◌<◌, ltb, if_both, ◌≡◌, arith}
use cute_mac.Devices.Via6522.Tick.{rewind, rewound}

-- The rounds make up for the cycles that are overdue, and leave between 1 and a period to go.
record IsRewound (period overdue : ℕ) (r : ℕ × ℕ) : Type 0 where
  made_up : r.0 + overdue ≡ r.1 * period
  positive : 0 < r.0
  within : r.0 ≤ period

rewind-IsRewound :
    (fuel period overdue : ℕ)
    → 0 < period
    → overdue < fuel
    → IsRewound period overdue (rewind fuel period overdue)
unfolding rewind
rewind-IsRewound zero period overdue pos less = absurd (omega (arith, less))
rewind-IsRewound (suc fuel) period overdue pos less =
    if_both (IsRewound period overdue) (ltb overdue period) _ _
      (λ t. record { made_up = ground arith; positive = ground arith; within = omega arith })
      (λ t.
        let late : period ≤ overdue = ground arith in
        let h =
          rewind-IsRewound fuel period (overdue - period) pos (omega (arith, late, pos, less)) in
        record {
          made_up = omega (arith, h.made_up, late);
          positive = h.positive;
          within = h.within;
        })

-- The fuel of the loops is enough.
rewound-IsRewound :
    (period overdue : ℕ) → 0 < period → IsRewound period overdue (rewound period overdue)
rewound-IsRewound period overdue pos =
    rewind-IsRewound (suc overdue) period overdue pos (omega arith)
