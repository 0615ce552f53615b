-- ===== src/Devices/Via6522.antt =====
-- devices/via6522/Via6522.cpp: the versatile interface adapter, its ports, registers and timers.
-- The callbacks of the machine are parameters: they act on the adapter, which they may call again,
-- and on the machine's own state `W`. A callback that was never set is none.
pub mod Registers
pub mod Tick
pub mod Untouched
pub mod Timer
pub mod Rewind
use cute_mac.Base.{
  ℕ, ◌+◌, ◌*◌, ◌/◌, ◌%◌, ◌^◌, ◌-◌, bit_and, bit_or, Bool, true, false, not, ◌&&◌, ◌||◌, List, [],
  ◌∷◌, ◌++◌, Option, none, some, ltb, leb, ◌==◌, if◌then◌else◌, u8, ℤ, pos, negsuc, ◌>>>◌,
}

-- The counters are `int`s that are never negative between two calls. `m_registers` is an array of
-- 16 bytes, here a function of the index.
pub record Via6522 : Type 0 where
  pub registers : ℕ → ℕ
  pub initial_port_a : ℕ
  pub initial_port_b : ℕ
  pub initial_ddr_a : ℕ
  pub initial_ddr_b : ℕ
  pub port_a_inputs : ℕ
  pub port_b_inputs : ℕ
  pub interrupt_enable : ℕ
  pub timer1_counter : ℕ
  pub timer1_latch : ℕ
  pub timer1_free_counter : ℕ
  pub timer1_running : Bool
  pub timer1_pb7 : Bool
  pub timer2_counter : ℕ
  pub timer2_free_counter : ℕ
  pub timer2_running : Bool
  pub vbl_cycles : ℕ
  pub automatic_ca1_period : ℕ
  pub ca1 : Bool
  pub cb1 : Bool
  pub cb2 : Bool
  pub keyboard_transitions : List ℕ
  pub keyboard_command : ℕ
  pub shift_cycles : ℕ
  pub keyboard_command_pending : Bool
  pub keyboard_response_ready : Bool

pub record Callbacks (W : Type 0) : Type 0 where
  pub port_a_changed : Option (ℕ → Via6522 × W → Via6522 × W)
  pub port_b_changed : Option (ℕ → ℕ → Via6522 × W → Via6522 × W)
  pub shift_register_write : Option (ℕ → Via6522 × W → Via6522 × W)
  pub shift_register_read : Option (Via6522 × W → Via6522 × W)

-- The bits of the interrupt flag register.
abbrev pub vbl_interrupt_bit : ℕ
vbl_interrupt_bit = 0x02

abbrev pub shift_register_interrupt_bit : ℕ
shift_register_interrupt_bit = 0x04

abbrev pub cb2_interrupt_bit : ℕ
cb2_interrupt_bit = 0x08

abbrev pub cb1_interrupt_bit : ℕ
cb1_interrupt_bit = 0x10

abbrev pub timer2_interrupt_bit : ℕ
timer2_interrupt_bit = 0x20

abbrev pub timer1_interrupt_bit : ℕ
timer1_interrupt_bit = 0x40

abbrev pub keyboard_byte_cycles : ℕ
keyboard_byte_cycles = 80

abbrev pub keyboard_inquiry_timeout_cycles : ℕ
keyboard_inquiry_timeout_cycles = 1_958_400

abbrev pub set_register : ℕ → ℕ → Via6522 → Via6522
set_register index value v = record v {
  registers = λ i. if i == index then value else v.registers i;
}

-- `~mask` of a byte.
abbrev pub not8 : ℕ → ℕ
not8 mask = 255 - mask

-- `m_registers[interruptFlag] |= mask` and `&= ~mask`.
abbrev pub raise_flags : ℕ → Via6522 → Via6522
raise_flags mask v = set_register 13 (bit_or (v.registers 13) mask) v

abbrev pub lower_flags : ℕ → Via6522 → Via6522
lower_flags mask v = set_register 13 (bit_and (v.registers 13) (not8 mask)) v

-- `(m_registers[auxiliaryControl] & mask) != 0`.
abbrev pub auxiliary : ℕ → Via6522 → Bool
auxiliary mask v = not (bit_and (v.registers 11) mask == 0)

unfoldable pub port_a : Via6522 → ℕ
port_a v =
    let outputs = bit_and (v.registers 15) (v.registers 3) in
    let inputs = bit_and v.port_a_inputs (not8 (v.registers 3)) in bit_or outputs inputs

-- Timer 1 drives bit 7 of port B where the auxiliary control register says so.
abbrev pub with_pb7 : Via6522 → ℕ → ℕ
with_pb7 v outputs =
    if auxiliary 0x80 v
    then (if v.timer1_pb7 then bit_or outputs 0x80 else bit_and outputs (not8 0x80))
    else outputs

unfoldable pub port_b : Via6522 → ℕ
port_b v =
    let outputs = with_pb7 v (bit_and (v.registers 0) (v.registers 2)) in
    let inputs = bit_and v.port_b_inputs (not8 (v.registers 2)) in bit_or outputs inputs

unfoldable pub overlay_enabled : Via6522 → Bool
unfolding port_a
overlay_enabled v = not (bit_and (port_a v) 0x10 == 0)

unfoldable pub interrupt_active : Via6522 → Bool
interrupt_active v = not (bit_and (v.registers 13) v.interrupt_enable == 0)

unfoldable pub interrupt_flag_register : Via6522 → ℕ
interrupt_flag_register v =
    if bit_and (v.registers 13) v.interrupt_enable == 0
    then v.registers 13
    else bit_or (v.registers 13) 0x80

abbrev pub with_input : ℕ → Bool → ℕ → ℕ
with_input bit high inputs =
    if high then bit_or inputs (2 ^ bit) else bit_and inputs (not8 (2 ^ bit))

unfoldable pub set_port_a_input_bit : ℕ → Bool → Via6522 → Via6522
set_port_a_input_bit bit high v =
    if leb 8 bit then v else record v { port_a_inputs = with_input bit high v.port_a_inputs }

unfoldable pub set_port_b_input_bit : ℕ → Bool → Via6522 → Via6522
set_port_b_input_bit bit high v =
    if leb 8 bit then v else record v { port_b_inputs = with_input bit high v.port_b_inputs }

-- A falling edge of a control line raises its flag.
abbrev pub falling : Bool → Bool → ℕ → Via6522 → Via6522
falling before high mask v = if before && not high then raise_flags mask v else v

unfoldable pub set_ca1 : Bool → Via6522 → Via6522
set_ca1 high v = record (falling v.ca1 high vbl_interrupt_bit v) { ca1 = high }

unfoldable pub set_cb1 : Bool → Via6522 → Via6522
set_cb1 high v = record (falling v.cb1 high cb1_interrupt_bit v) { cb1 = high }

unfoldable pub set_cb2 : Bool → Via6522 → Via6522
set_cb2 high v = record (falling v.cb2 high cb2_interrupt_bit v) { cb2 = high }

unfoldable pub external_shift_in : ℕ → Via6522 → Via6522
external_shift_in value v = raise_flags shift_register_interrupt_bit (set_register 10 value v)

unfoldable pub external_shift_out_complete : Via6522 → Via6522
external_shift_out_complete v = raise_flags shift_register_interrupt_bit v

unfoldable pub set_power_on_state : ℕ → ℕ → ℕ → ℕ → Via6522 → Via6522
set_power_on_state a b da db v = record v {
  initial_port_a = a;
  initial_port_b = b;
  initial_ddr_a = da;
  initial_ddr_b = db;
}

abbrev pub at_least_0 : ℤ → ℕ
at_least_0 (pos n) = n
at_least_0 (negsuc n) = 0

unfoldable pub set_automatic_ca1_period : ℤ → Via6522 → Via6522
set_automatic_ca1_period cycles v = record v {
  automatic_ca1_period = at_least_0 cycles;
  vbl_cycles = at_least_0 cycles;
}

unfoldable pub queue_keyboard_transition : ℕ → Bool → Via6522 → Via6522
queue_keyboard_transition key_code pressed v =
    let code = bit_or (u8 (bit_and key_code 0x3f * 2)) (if pressed then 0x00 else 0x80) in
    let inquiry =
      v.keyboard_command_pending
      && (v.keyboard_command == 0x10)
      && not v.keyboard_response_ready
      && not (auxiliary 0x10 v) in
    record v {
      keyboard_transitions = v.keyboard_transitions ++ (code ∷ []);
      shift_cycles = if inquiry then keyboard_byte_cycles else v.shift_cycles;
    }

module _ {W : Type 0} (callbacks : Callbacks W) where
  unfoldable pub notify_port_a_changed : Via6522 × W → Via6522 × W
  unfolding port_a
  notify_port_a_changed (v, w) = elim callbacks.port_a_changed [
    | some f ↦ f (port_a v) (v, w)
    | none ↦ (v, w)
  ]

  -- `if (m_portBChanged) m_portBChanged(value, m_registers[dataDirectionB])`.
  unfoldable pub notify_port_b : ℕ → Via6522 × W → Via6522 × W
  notify_port_b value (v, w) = elim callbacks.port_b_changed [
    | some f ↦ f value (v.registers 2) (v, w)
    | none ↦ (v, w)
  ]

  abbrev pub power_on : Via6522 → Via6522
  power_on v = record v {
    registers = λ i.
        if i == 15
        then v.initial_port_a
        else if i == 0
        then v.initial_port_b
        else if i == 3
        then v.initial_ddr_a
        else if i == 2
        then v.initial_ddr_b
        else 0;
    interrupt_enable = 0;
    timer1_counter = 0;
    timer1_latch = 0;
    timer1_free_counter = 0xffff;
    timer1_running = false;
    timer1_pb7 = false;
    timer2_counter = 0;
    timer2_free_counter = 0xffff;
    timer2_running = false;
    vbl_cycles = v.automatic_ca1_period;
    ca1 = true;
    cb1 = true;
    cb2 = true;
    keyboard_transitions = [];
    keyboard_command = 0;
    shift_cycles = 0;
    keyboard_command_pending = false;
    keyboard_response_ready = false;
  }

  abbrev notify_latch_b : Via6522 × W → Via6522 × W
  notify_latch_b (v, w) = notify_port_b (v.registers 0) (v, w)

  unfoldable pub reset_via : Via6522 × W → Via6522 × W
  unfolding notify_port_a_changed notify_port_b
  reset_via (v, w) = notify_latch_b (notify_port_a_changed (power_on v, w))
