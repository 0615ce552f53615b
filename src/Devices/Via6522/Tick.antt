-- ===== src/Devices/Via6522/Tick.antt =====
-- Via6522::tick: the vertical blanking interrupt, the timers and the keyboard's shift register.
use cute_mac.Base.{
  ℕ, zero, suc, ◌+◌, ◌%◌, ◌^◌, ◌-◌, Bool, true, false, not, ◌&&◌, List, [], ◌∷◌, ltb, ◌==◌,
  if◌then◌else◌, u8, ℤ, pos, negsuc, ◌>>>◌,
}
use cute_mac.Devices.Via6522.{
  Via6522, Callbacks, set_register, raise_flags, auxiliary, port_b, notify_port_b,
  shift_register_interrupt_bit, timer2_interrupt_bit, timer1_interrupt_bit, vbl_interrupt_bit,
}
use cute_mac.Devices.Via6522.Registers.{timer1_reload}

-- `while (counter <= 0) counter += period;` from a counter of `- overdue`: the counter and the
-- rounds.
unfoldable pub rewind : ℕ → ℕ → ℕ → ℕ × ℕ
rewind zero period overdue = (0, 0)
rewind (suc fuel) period overdue =
    let (counter, rounds) = rewind fuel period (overdue - period) in
    if ltb overdue period then (period - overdue, 1) else (counter, suc rounds)

-- Each round takes a period of at least 1 away, so this many are enough.
abbrev pub rewound : ℕ → ℕ → ℕ × ℕ
rewound period overdue = rewind (suc overdue) period overdue

unfoldable pub tick_vbl : ℕ → Via6522 → Via6522
unfolding rewind
tick_vbl cycles v =
    if v.automatic_ca1_period == 0
    then v
    else if ltb cycles v.vbl_cycles
    then record v { vbl_cycles = v.vbl_cycles - cycles }
    else let (counter, rounds) = rewound v.automatic_ca1_period (cycles - v.vbl_cycles) in
      raise_flags vbl_interrupt_bit (record v { vbl_cycles = counter })

-- The two bytes of a counter, in the registers from `index` on.
abbrev pub show_counter : ℕ → ℕ → Via6522 → Via6522
show_counter index counter v =
    set_register (index + 1) (u8 (counter >>> 8)) (set_register index (u8 counter) v)

-- `(free - cycles) & 0xffff`.
abbrev pub count_free : ℕ → ℕ → ℕ
count_free free cycles = (free + 0x10000 - cycles % 0x10000) % 0x10000

unfoldable pub tick_timer2 : ℕ → Via6522 → Via6522
tick_timer2 cycles v =
    if v.timer2_running
    then (if ltb cycles v.timer2_counter
        then show_counter 8 (v.timer2_counter - cycles)
            (record v { timer2_counter = v.timer2_counter - cycles })
        else raise_flags timer2_interrupt_bit
            (show_counter 8 0 (record v { timer2_counter = 0; timer2_running = false })))
    else if auxiliary 0x20 v
    then v
    else record v { timer2_free_counter = count_free v.timer2_free_counter cycles }

-- The next transition, or 0x7b where there is none.
unfoldable pub next_transition : List ℕ → Via6522 → Via6522
next_transition [] v = set_register 10 0x7b v
next_transition (transition ∷ later) v = record (set_register 10 transition v) {
  keyboard_transitions = later;
}

-- The byte that the keyboard answers.
unfoldable pub keyboard_answer : Via6522 → Via6522
unfolding next_transition
keyboard_answer v =
    if v.keyboard_command == 0x16
    then set_register 10 0x03 v
    else next_transition v.keyboard_transitions v

unfoldable pub tick_keyboard : ℕ → Via6522 → Via6522
unfolding keyboard_answer
tick_keyboard cycles v =
    if v.shift_cycles == 0
    then v
    else if ltb cycles v.shift_cycles
    then record v { shift_cycles = v.shift_cycles - cycles }
    else let v' = record v { shift_cycles = 0 } in
      raise_flags shift_register_interrupt_bit (
        if not (auxiliary 0x10 v') && v'.keyboard_command_pending
        then record (keyboard_answer v') { keyboard_response_ready = true }
        else v')

module _ {W : Type 0} (callbacks : Callbacks W) where
  -- PB7 changes where timer 1 drives it.
  unfoldable pub drive_pb7 : Bool → Bool → Via6522 × W → Via6522 × W
  unfolding notify_port_b port_b
  drive_pb7 drives level (v, w) =
      let v' = record v { timer1_pb7 = level } in
      if drives then notify_port_b callbacks (port_b v') (v', w) else (v, w)

  -- What comes when timer 1 has counted down, `overdue` cycles ago.
  unfoldable pub timer1_expired : ℕ → Via6522 × W → Via6522 × W
  unfolding rewind drive_pb7
  timer1_expired overdue (v, w) =
      let v' = raise_flags timer1_interrupt_bit v in
      let (counter, expirations) = rewound (timer1_reload v') overdue in
      if auxiliary 0x40 v'
      then drive_pb7 (auxiliary 0x80 v' && (expirations % 2 == 1)) (not v'.timer1_pb7)
          (record v' { timer1_counter = counter }, w)
      else drive_pb7 (auxiliary 0x80 v') true
          (record v' { timer1_counter = 0; timer1_running = false }, w)

  abbrev pub show_timer1 : Via6522 × W → Via6522 × W
  show_timer1 (v, w) = (show_counter 4 (v.timer1_counter % 2 ^ 16) v, w)

  unfoldable pub tick_timer1 : ℕ → Via6522 × W → Via6522 × W
  unfolding timer1_expired
  tick_timer1 cycles (v, w) =
      if v.timer1_running
      then show_timer1 (
          if ltb cycles v.timer1_counter
          then (record v { timer1_counter = v.timer1_counter - cycles }, w)
          else timer1_expired (cycles - v.timer1_counter) (v, w))
      else (record v { timer1_free_counter = count_free v.timer1_free_counter cycles }, w)

  abbrev pub tick_rest : ℕ → Via6522 × W → Via6522 × W
  tick_rest cycles (v, w) = (tick_keyboard cycles (tick_timer2 cycles v), w)

  -- No time passes for a count that is not positive.
  unfoldable pub tick : ℤ → Via6522 × W → Via6522 × W
  unfolding tick_vbl tick_timer1 tick_timer2 tick_keyboard
  tick (negsuc n) s = s
  tick (pos cycles) (v, w) =
      if cycles == 0 then (v, w) else tick_rest cycles (tick_timer1 cycles (tick_vbl cycles v, w))
