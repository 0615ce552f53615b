-- ===== src/M68k/Vectors.antt =====
-- The exception numbers and the instruction mode of m68kcpu.h.
use cute_mac.Base.{ℕ}

abbrev pub exception_bus_error : ℕ
exception_bus_error = 2

abbrev pub exception_address_error : ℕ
exception_address_error = 3

abbrev pub exception_illegal_instruction : ℕ
exception_illegal_instruction = 4

abbrev pub exception_zero_divide : ℕ
exception_zero_divide = 5

abbrev pub exception_chk : ℕ
exception_chk = 6

abbrev pub exception_trapv : ℕ
exception_trapv = 7

abbrev pub exception_privilege_violation : ℕ
exception_privilege_violation = 8

abbrev pub exception_1010 : ℕ
exception_1010 = 10

abbrev pub exception_1111 : ℕ
exception_1111 = 11

abbrev pub exception_format_error : ℕ
exception_format_error = 14

abbrev pub exception_uninitialized_interrupt : ℕ
exception_uninitialized_interrupt = 15

abbrev pub exception_interrupt_autovector : ℕ
exception_interrupt_autovector = 24

abbrev pub exception_trap_base : ℕ
exception_trap_base = 32

abbrev pub instruction_yes : ℕ
instruction_yes = 0

abbrev pub instruction_no : ℕ
instruction_no = 8
