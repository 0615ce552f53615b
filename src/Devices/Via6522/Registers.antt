-- ===== src/Devices/Via6522/Registers.antt =====
-- Via6522::readRegister and Via6522::writeRegister.
use cute_mac.Base.{
  ℕ, ◌*◌, ◌^◌, bit_and, bit_or, Bool, true, false, not, ◌&&◌, ◌||◌, List, [], ◌∷◌, Option, none,
  some, ◌==◌, if◌then◌else◌, u8, ◌>>>◌,
}
use cute_mac.Devices.Via6522.{
  Via6522, Callbacks, set_register, lower_flags, auxiliary, not8, port_a, port_b,
  notify_port_a_changed, notify_port_b, interrupt_flag_register, shift_register_interrupt_bit,
  cb2_interrupt_bit, cb1_interrupt_bit, timer2_interrupt_bit, timer1_interrupt_bit,
  keyboard_byte_cycles, keyboard_inquiry_timeout_cycles,
}

-- The independent modes of CB2, whose flag a read of port B leaves alone.
abbrev cb2_is_independent : Via6522 → Bool
cb2_is_independent v = let mode = bit_and (v.registers 12 >>> 5) 7 in (mode == 1) || (mode == 3)

abbrev is_none : {A : Type 0} → Option A → Bool
is_none none = true
is_none (some a) = false

abbrev no_transition : List ℕ → Bool
no_transition [] = true
no_transition (x ∷ xs) = false

unfoldable pub read_register_b : Via6522 → ℕ × Via6522
unfolding port_b
read_register_b v =
    let v' = lower_flags cb1_interrupt_bit v in
    let v'' = if cb2_is_independent v then v' else lower_flags cb2_interrupt_bit v' in
    (port_b v'', v'')

-- What a read of the shift register does to the keyboard.
unfoldable pub read_keyboard : Via6522 → Via6522
read_keyboard v =
    if v.keyboard_response_ready
    then record v { keyboard_response_ready = false; keyboard_command_pending = false }
    else if v.keyboard_command_pending && not (auxiliary 0x10 v) && (v.shift_cycles == 0)
    then record v {
      shift_cycles =
          if (v.keyboard_command == 0x10) && no_transition v.keyboard_transitions
          then keyboard_inquiry_timeout_cycles
          else keyboard_byte_cycles;
    }
    else v

-- Timer 2 counts pulses where bit 5 of the auxiliary control register is set.
abbrev pub timer2_free : Via6522 → Bool
timer2_free v = not v.timer2_running && not (auxiliary 0x20 v)

unfoldable pub read_timer : ℕ → Via6522 → ℕ × Via6522
read_timer index v =
    if index == 4
    then (
      if v.timer1_running then v.registers 4 else u8 v.timer1_free_counter,
      lower_flags timer1_interrupt_bit v,
    )
    else if index == 5
    then (if v.timer1_running then v.registers 5 else u8 (v.timer1_free_counter >>> 8), v)
    else if index == 8
    then (
      if timer2_free v then u8 v.timer2_free_counter else v.registers 8,
      lower_flags timer2_interrupt_bit v,
    )
    else (if timer2_free v then u8 (v.timer2_free_counter >>> 8) else v.registers 9, v)

unfoldable pub write_interrupt_enable : ℕ → Via6522 → Via6522
write_interrupt_enable value v = record v {
  interrupt_enable =
      if bit_and value 0x80 == 0
      then bit_and v.interrupt_enable (not8 value)
      else bit_or v.interrupt_enable (bit_and value 0x7f);
}

abbrev pub latch_low : ℕ → Via6522 → Via6522
latch_low value v = record v { timer1_latch = bit_or (bit_and v.timer1_latch 0xff00) value }

abbrev pub latch_high : ℕ → Via6522 → Via6522
latch_high value v = record v {
  timer1_latch = bit_or (value * 2 ^ 8) (bit_and v.timer1_latch 0x00ff);
}

-- A latch of 0 stands for the longest time.
abbrev pub timer1_reload : Via6522 → ℕ
timer1_reload v = if v.timer1_latch == 0 then 0x10000 else v.timer1_latch

abbrev pub start_timer1 : ℕ → Via6522 → Via6522
start_timer1 value v =
    let v' = latch_high value (set_register 5 value v) in
    record v' { timer1_counter = timer1_reload v'; timer1_running = true }

abbrev pub start_timer2 : ℕ → Via6522 → Via6522
start_timer2 value v =
    let v' = set_register 9 value v in
    lower_flags timer2_interrupt_bit (record v' {
      timer2_counter = bit_or (v'.registers 9 * 2 ^ 8) (v'.registers 8);
      timer2_running = true;
    })

module _ {W : Type 0} (callbacks : Callbacks W) where
  -- `if (m_shiftRegisterRead) m_shiftRegisterRead();`
  notify_read : Via6522 × W → Via6522 × W
  notify_read s = elim callbacks.shift_register_read [ some f ↦ f s | none ↦ s ]

  unfoldable pub read_shift_register : Via6522 × W → ℕ × Via6522 × W
  unfolding read_keyboard notify_read
  read_shift_register (v, w) =
      let (v', w') = notify_read (read_keyboard (lower_flags shift_register_interrupt_bit v), w) in
      (v.registers 10, v', w')

  -- The state of the machine stays as it is.
  abbrev beside : W → ℕ × Via6522 → ℕ × Via6522 × W
  beside w (value, v) = (value, v, w)

  unfoldable pub read_register : ℕ → Via6522 × W → ℕ × Via6522 × W
  unfolding port_a read_register_b read_timer read_shift_register interrupt_flag_register
  read_register n (v, w) =
      let index = bit_and n 0x0f in
      if index == 0
      then beside w (read_register_b v)
      else if index == 1
      then (port_a v, lower_flags 0x03 v, w)
      else if index == 15
      then (port_a v, v, w)
      else if index == 10
      then read_shift_register (v, w)
      else if (index == 4) || (index == 5) || (index == 8) || (index == 9)
      then beside w (read_timer index v)
      else if index == 13
      then (interrupt_flag_register v, v, w)
      else if index == 14
      then (bit_or 0x80 v.interrupt_enable, v, w)
      else (v.registers index, v, w)

  abbrev pub clear_timer1 : Via6522 × W → Via6522 × W
  clear_timer1 (v, w) = (lower_flags timer1_interrupt_bit v, w)

  -- Timer 1 starts, and PB7 goes low before its flag is cleared.
  unfoldable pub write_timer1_high : ℕ → Via6522 × W → Via6522 × W
  unfolding notify_port_b port_b
  write_timer1_high value (v, w) =
      let v' = start_timer1 value v in
      let low = record v' { timer1_pb7 = false } in
      clear_timer1
        (if auxiliary 0x80 v' then notify_port_b callbacks (port_b low) (low, w) else (v', w))

  -- A keyboard command, where nothing else is connected to the shift register.
  abbrev keyboard_command_write : ℕ → Via6522 → Via6522
  keyboard_command_write value v =
      if (bit_and (v.registers 11) 0x1c == 0x1c) && is_none callbacks.shift_register_write
      then record v {
        keyboard_command = value;
        keyboard_command_pending = true;
        keyboard_response_ready = false;
        shift_cycles = keyboard_byte_cycles;
      }
      else v

  -- `if (m_shiftRegisterWrite && …) m_shiftRegisterWrite(value);`
  notify_write : ℕ → Via6522 × W → Via6522 × W
  notify_write value (v, w) = elim callbacks.shift_register_write [
    | some f ↦ if auxiliary 0x10 v then f value (v, w) else (v, w)
    | none ↦ (v, w)
  ]

  unfoldable pub write_shift_register : ℕ → Via6522 × W → Via6522 × W
  unfolding notify_write
  write_shift_register value (v, w) =
      let v' = lower_flags shift_register_interrupt_bit (set_register 10 value v) in
      notify_write value (keyboard_command_write value v', w)

  -- The ports, their directions, and the registers that are only stored.
  unfoldable pub write_port : ℕ → ℕ → Via6522 × W → Via6522 × W
  unfolding notify_port_a_changed notify_port_b
  write_port index value (v, w) =
      let v' = set_register (if index == 1 then 15 else index) value v in
      if (index == 15) || (index == 1) || (index == 3)
      then notify_port_a_changed callbacks (v', w)
      else if (index == 0) || (index == 2)
      then notify_port_b callbacks (v'.registers 0) (v', w)
      else (v', w)

  unfoldable pub write_register : ℕ → ℕ → Via6522 × W → Via6522 × W
  unfolding write_interrupt_enable write_timer1_high write_shift_register write_port
  write_register n value (v, w) =
      let index = bit_and n 0x0f in
      if index == 13
      then (lower_flags value v, w)
      else if index == 14
      then (write_interrupt_enable value v, w)
      else if (index == 4) || (index == 6)
      then (latch_low value (set_register index value v), w)
      else if index == 5
      then write_timer1_high value (v, w)
      else if index == 7
      then (latch_high value (set_register 7 value v), w)
      else if index == 8
      then (lower_flags timer2_interrupt_bit (set_register 8 value v), w)
      else if index == 10
      then write_shift_register value (v, w)
      else if index == 9
      then (start_timer2 value v, w)
      else write_port index value (v, w)
