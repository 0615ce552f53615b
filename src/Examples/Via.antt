-- ===== src/Examples/Via.antt =====
-- Timer 1 of the VIA with nothing connected.
use cute_mac.Base.{ℤ, ◌-◌, true, false, List, [], ◌∷◌, none, pos, negsuc, ◌≡◌, refl, arith}
use cute_mac.Devices.Via6522.{Via6522, Callbacks}
use cute_mac.Devices.Via6522.Registers.{read_register, write_register}
use cute_mac.Devices.Via6522.Tick.{tick}
use cute_mac.Devices.Via6522.Timer.{
  IsTimer1, elapsed, timer1_cycles, tick_all, tick_all-write_register,
}

abbrev nothing_connected : Callbacks (Unit {0})
nothing_connected = record {
  port_a_changed = none;
  port_b_changed = none;
  shift_register_write = none;
  shift_register_read = none;
}

abbrev via : Via6522
via = record {
  registers = λ i. 0;
  initial_port_a = 0x7b;
  initial_port_b = 0x8f;
  initial_ddr_a = 0x7f;
  initial_ddr_b = 0x87;
  port_a_inputs = 0xff;
  port_b_inputs = 0xff;
  interrupt_enable = 0;
  timer1_counter = 0;
  timer1_latch = 0;
  timer1_free_counter = 0xffff;
  timer1_running = false;
  timer1_pb7 = false;
  timer2_counter = 0;
  timer2_free_counter = 0xffff;
  timer2_running = false;
  vbl_cycles = 0;
  automatic_ca1_period = 130560;
  ca1 = true;
  cb1 = true;
  cb2 = true;
  keyboard_transitions = [];
  keyboard_command = 0;
  shift_cycles = 0;
  keyboard_command_pending = false;
  keyboard_response_ready = false;
}

-- 0x102 cycles, of which 256 pass, and then two more.
abbrev ticks : List ℤ
ticks = pos 200 ∷ negsuc 4 ∷ pos 56 ∷ pos 2 ∷ []

tick_all-write_register_example :
    IsTimer1
      (timer1_cycles 2 1 - elapsed ticks)
      (tick_all nothing_connected ticks
        (write_register nothing_connected 5 1 (write_register nothing_connected 4 2 (via, tt)))).0
tick_all-write_register_example =
    tick_all-write_register nothing_connected 2 1 ticks via tt (omega arith) refl refl

-- Its flag can be read then.
timer1_flag :
    (read_register nothing_connected 13 (
      tick_all nothing_connected ticks
        (write_register nothing_connected 5 1 (write_register nothing_connected 4 2 (via, tt))))).0
    ≡ 0x42
unfolding read_register write_register tick_all tick
timer1_flag = refl
