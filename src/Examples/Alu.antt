-- ===== src/Examples/Alu.antt =====
-- Arithmetic, comparisons and decimal arithmetic at concrete operands.
use cute_mac.Base.{◌+◌, ◌-◌, true, ltb, leb, ◌≡◌, refl, arith, bool_to_ℕ}
use cute_mac.M68k.Flags.{byte, word, long, Flags, cond, lt, eq, extend}
use cute_mac.M68k.Alu.{alu_add, alu_addx, alu_sub, alu_subx, alu_cmp}
use cute_mac.M68k.Alu.Spec.{IsSum, IsDifference}
use cute_mac.M68k.Alu.Add.{alu_add-IsSum, alu_addx-IsSum}
use cute_mac.M68k.Alu.Sub.{alu_sub-IsDifference, alu_subx-IsDifference}
use cute_mac.M68k.Alu.Compare.{compares, alu_cmp-compares}
use cute_mac.M68k.Bcd.{alu_abcd, alu_sbcd}
use cute_mac.M68k.Bcd.Laws.{IsBcd, IsDecimal, decimal, alu_abcd-IsDecimal, alu_sbcd-IsDecimal}

-- X set, all else clear.
abbrev extended : Flags
extended = record { x = 0x100; n = 0; not_z = 0; v = 0; c = 0 }

alu_add-IsSum_example : IsSum byte 200 100 0 true (alu_add byte 200 100 extended)
alu_add-IsSum_example = alu_add-IsSum byte 200 100 extended (omega arith) (omega arith)

alu_addx-IsSum_example :
    IsSum word 0xffff 0
      (bool_to_ℕ (extend extended))
      (cond eq extended)
      (alu_addx word 0xffff 0 extended)
alu_addx-IsSum_example = alu_addx-IsSum word 0xffff 0 extended (omega arith) (omega arith)

alu_sub-IsDifference_example : IsDifference long 1 0 0 true (alu_sub long 1 0 extended)
alu_sub-IsDifference_example = alu_sub-IsDifference long 1 0 extended (omega arith) (omega arith)

alu_subx-IsDifference_example :
    IsDifference byte 0 0x80
      (bool_to_ℕ (extend extended))
      (cond eq extended)
      (alu_subx byte 0 0x80 extended)
alu_subx-IsDifference_example =
    alu_subx-IsDifference byte 0 0x80 extended (omega arith) (omega arith)

alu_cmp-compares_example : cond lt (alu_cmp word 1 0xffff extended) ≡ compares lt word 1 0xffff
alu_cmp-compares_example = alu_cmp-compares lt word 1 0xffff extended (omega arith) (omega arith)

minus_one_below_one : compares lt word 1 0xffff ≡ true
unfolding compares
minus_one_below_one = refl

ninety_nine-IsBcd : IsBcd 0x99
ninety_nine-IsBcd = record { low = omega arith; high = omega arith }

alu_abcd-IsDecimal_example :
    let n = decimal 0x99 + decimal 0x99 + bool_to_ℕ (extend extended) in
    let r = alu_abcd 0x99 0x99 extended in
    IsDecimal n (leb 100 n) (cond eq extended) r.value r.flags
alu_abcd-IsDecimal_example =
    alu_abcd-IsDecimal 0x99 0x99 extended ninety_nine-IsBcd ninety_nine-IsBcd

alu_sbcd-IsDecimal_example :
    let n = decimal 0x99 + bool_to_ℕ (extend extended) in
    let r = alu_sbcd 0x99 0x99 extended in
    IsDecimal (decimal 0x99 + 100 - n) (ltb (decimal 0x99) n) (cond eq extended) r.value r.flags
alu_sbcd-IsDecimal_example =
    alu_sbcd-IsDecimal 0x99 0x99 extended ninety_nine-IsBcd ninety_nine-IsBcd
