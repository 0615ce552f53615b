-- ===== src/Examples/MulDiv.antt =====
-- Multiplication and division at concrete operands.
use cute_mac.Base.{◌*◌, ◌<◌, ◌^◌, ◌%◌, some, ◌≡◌, arith, ℕ, ◌*ℤ◌}
use cute_mac.M68k.Flags.{Flags, long, word}
use cute_mac.M68k.Alu.{Result}
use cute_mac.M68k.Alu.Spec.{signed}
use cute_mac.M68k.MulDiv.{alu_mulu, alu_muls, alu_divu}
use cute_mac.M68k.MulDiv.Laws.{IsExact, alu_mulu-IsExact, Divided, alu_divu-Divided}
use cute_mac.M68k.MulDiv.Signed.{alu_muls-IsExact}

abbrev extended : Flags
extended = record { x = 0x100; n = 0; not_z = 0; v = 0; c = 0 }

alu_mulu-IsExact_example :
    IsExact (0xffff * (0x1ffff % 2 ^ 16)) extended (alu_mulu 0xffff 0x1ffff extended)
alu_mulu-IsExact_example = alu_mulu-IsExact 0xffff 0x1ffff extended (omega arith)

alu_muls-IsExact_example :
    (v : ℕ) × (v < 2 ^ 32)
    × (signed long v ≡ signed word 0xfffe *ℤ signed word (3 % 2 ^ 16))
    × IsExact v extended (alu_muls 0xfffe 3 extended)
alu_muls-IsExact_example = alu_muls-IsExact 0xfffe 3 extended (omega arith)

alu_divu-Divided_example :
    (r : Result) × (alu_divu 7 100 extended ≡ some r) × Divided 7 100 extended r
alu_divu-Divided_example = alu_divu-Divided 7 100 extended (omega arith) (omega arith)
