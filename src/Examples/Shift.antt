-- ===== src/Examples/Shift.antt =====
-- Shifts at concrete operands.
use cute_mac.Base.{◌*◌, ◌/◌, ◌%◌, ◌^◌, bit, arith}
use cute_mac.M68k.Flags.{byte, word, long, width, Flags}
use cute_mac.M68k.Alu.Spec.{modulus}
use cute_mac.M68k.Shift.{alu_lsl, alu_lsr, alu_lsl_s, alu_lsr_s}
use cute_mac.M68k.Shift.Laws.{IsShift, alu_lsl-IsShift}
use cute_mac.M68k.Shift.Right.{alu_lsr-IsShift, alu_lsr_s-IsShift}
use cute_mac.M68k.Shift.Immediate.{alu_lsl_s-IsShift}

abbrev clear_flags : Flags
clear_flags = record { x = 0; n = 0; not_z = 1; v = 0; c = 0 }

alu_lsl-IsShift_example :
    IsShift long 32
      (5 * 2 ^ 32 % modulus long)
      (bit (width long) (5 * 2 ^ 32))
      clear_flags
      (alu_lsl long 32 5 clear_flags)
alu_lsl-IsShift_example = alu_lsl-IsShift long 32 5 clear_flags (omega arith)

alu_lsr-IsShift_example :
    IsShift word 3
      (0x8004 / 2 ^ 3)
      (bit 3 (0x8004 * 2))
      clear_flags
      (alu_lsr word 3 0x8004 clear_flags)
alu_lsr-IsShift_example = alu_lsr-IsShift word 3 0x8004 clear_flags (omega arith)

alu_lsr_s-IsShift_example :
    IsShift byte 8 (0x81 / 2 ^ 8) (bit 8 (0x81 * 2)) clear_flags (alu_lsr_s byte 8 0x81 clear_flags)
alu_lsr_s-IsShift_example =
    alu_lsr_s-IsShift byte 8 0x81 clear_flags (omega arith) (omega arith) (omega arith)

alu_lsl_s-IsShift_example :
    IsShift word 1
      (0x8001 * 2 ^ 1 % modulus word)
      (bit (width word) (0x8001 * 2 ^ 1))
      clear_flags
      (alu_lsl_s word 1 0x8001 clear_flags)
alu_lsl_s-IsShift_example = alu_lsl_s-IsShift word 1 0x8001 clear_flags (omega arith) (omega arith)
