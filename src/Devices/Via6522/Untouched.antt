-- ===== src/Devices/Via6522/Untouched.antt =====
-- About what Via6522::tick does besides timer 1, which it leaves alone.
use cute_mac.Base.{
  ℕ, bit, ◌&&◌, bit_or, bit_or-bit, true, not, List, [], ◌∷◌, ltb, ◌==◌, if_both, ◌≡◌, refl, ◌∙◌,
  arith,
}
use cute_mac.Devices.Via6522.{Via6522, raise_flags, auxiliary}
use cute_mac.Devices.Via6522.Tick.{
  tick_vbl, tick_timer2, tick_keyboard, keyboard_answer, next_transition,
}

-- Two states in which timer 1 and its flag are the same.
pub record IsSame (v v' : Via6522) : Type 0 where
  pub running : v'.timer1_running ≡ v.timer1_running
  pub counter : v'.timer1_counter ≡ v.timer1_counter
  pub control : v'.registers 11 ≡ v.registers 11
  pub flag : bit 6 (v'.registers 13) ≡ bit 6 (v.registers 13)

other_flag : (a mask : ℕ) → bit 6 mask ≡ 0 → bit 6 (bit_or a mask) ≡ bit 6 a
other_flag a mask none = rw (bit_or-bit 6 a mask, none) (omega arith)

unchanged : (v : Via6522) → IsSame v v
unchanged v = record { running = refl; counter = refl; control = refl; flag = refl }

pub tick_vbl-IsSame : (cycles : ℕ) (v : Via6522) → IsSame v (tick_vbl cycles v)
unfolding tick_vbl
tick_vbl-IsSame cycles v =
    if_both (IsSame v) (v.automatic_ca1_period == 0) _ _ (λ t. unchanged v)
      (λ t.
        if_both (IsSame v) (ltb cycles v.vbl_cycles) _ _
          (λ u. record { running = refl; counter = refl; control = refl; flag = refl })
          (λ u. record {
            running = refl;
            counter = refl;
            control = refl;
            flag = other_flag (v.registers 13) 2 refl;
          }))

pub tick_timer2-IsSame : (cycles : ℕ) (v : Via6522) → IsSame v (tick_timer2 cycles v)
unfolding tick_timer2
tick_timer2-IsSame cycles v =
    if_both (IsSame v) v.timer2_running _ _
      (λ t.
        if_both (IsSame v) (ltb cycles v.timer2_counter) _ _
          (λ u. record { running = refl; counter = refl; control = refl; flag = refl })
          (λ u. record {
            running = refl;
            counter = refl;
            control = refl;
            flag = other_flag (v.registers 13) 0x20 refl;
          }))
      (λ t.
        if_both (IsSame v) (auxiliary 0x20 v) _ _ (λ u. unchanged v)
          (λ u. record { running = refl; counter = refl; control = refl; flag = refl }))

next_transition-IsSame : (ts : List ℕ) (v : Via6522) → IsSame v (next_transition ts v)
unfolding next_transition
next_transition-IsSame [] v = record { running = refl; counter = refl; control = refl; flag = refl }
next_transition-IsSame (x ∷ xs) v = record {
  running = refl;
  counter = refl;
  control = refl;
  flag = refl;
}

keyboard_answer-IsSame : (v : Via6522) → IsSame v (keyboard_answer v)
unfolding keyboard_answer
keyboard_answer-IsSame v =
    if_both (IsSame v) (v.keyboard_command == 0x16) _ _
      (λ t. record { running = refl; counter = refl; control = refl; flag = refl })
      (λ t. next_transition-IsSame v.keyboard_transitions v)

-- The flag of the shift register is raised on a state like `v`.
shifted_out : (v v' : Via6522) → IsSame v v' → IsSame v (raise_flags 4 v')
shifted_out v v' h = record {
  running = h.running;
  counter = h.counter;
  control = h.control;
  flag = other_flag (v'.registers 13) 4 refl ∙ h.flag;
}

answered :
    (v v' : Via6522)
    → IsSame v v'
    → IsSame v (record (keyboard_answer v') { keyboard_response_ready = true })
answered v v' g =
    let h = keyboard_answer-IsSame v' in
    record {
      running = h.running ∙ g.running;
      counter = h.counter ∙ g.counter;
      control = h.control ∙ g.control;
      flag = h.flag ∙ g.flag;
    }

pub tick_keyboard-IsSame : (cycles : ℕ) (v : Via6522) → IsSame v (tick_keyboard cycles v)
unfolding tick_keyboard
tick_keyboard-IsSame cycles v =
    let v' = record v { shift_cycles = 0 } in
    let still : IsSame v v' = record {
      running = refl;
      counter = refl;
      control = refl;
      flag = refl;
    } in
    let answer = not (auxiliary 0x10 v') && v.keyboard_command_pending in
    if_both (IsSame v) (v.shift_cycles == 0) _ _ (λ t. unchanged v)
      (λ t.
        if_both (IsSame v) (ltb cycles v.shift_cycles) _ _
          (λ u. record { running = refl; counter = refl; control = refl; flag = refl })
          (λ u.
            if_both (λ s. IsSame v (raise_flags 4 s)) answer _ _
              (λ a. shifted_out v _ (answered v v' still)) (λ a. shifted_out v v' still)))
